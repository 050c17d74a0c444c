-- ===== src/Net.antt =====
-- The network as the sources use it: `send_data` and `recv_data` of two parties over a reliable
-- byte stream in each direction. A party is a process that sends, receives, and ends by a
-- result, an exception or a crash (undefined behaviour).
pub mod Run
pub mod Confluence
pub mod Message
pub mod Compose
pub mod Schedules
pub mod Gives
pub mod Crashes
pub mod Waits
use petace_verse.Common.{
  Bool, ℕ, zero, suc, ◌+◌, ◌*◌, ◌%◌, ◌^◌, ◌≡◌, List, [], ◌∷◌, ◌++◌, Outcome, ok, err, fault, Error,
  ltb, if◌then◌else◌, length, take,
}
use petace_verse.Util.Memory.{Block}
use petace_verse.Util.Bytes.{bytes_of_blocks, blocks_of_bytes}

pub data Proc {ℓ} (A : Type ℓ) : Type ℓ where
  done : A → Proc A
  throw : Error → Proc A
  crash : Proc A
  send_data : List ℕ → Proc A → Proc A
  recv_data : ℕ → (List ℕ → Proc A) → Proc A

infixl 5 ◌>>=◌ ◌>>◌
abbrev pub ◌>>=◌ {ℓ κ} : {A : Type ℓ} {B : Type κ} → Proc A → (A → Proc B) → Proc B
done a >>= f = f a
throw e >>= f = throw e
crash >>= f = crash
send_data bs p >>= f = send_data bs (p >>= f)
recv_data n k >>= f = recv_data n (λ bs. k bs >>= f)

abbrev pub ◌>>◌ {ℓ} : {B : Type ℓ} → Proc (Unit {0}) → Proc B → Proc B
m >> k = m >>= λ _. k

-- Code between two calls of the network.
abbrev pub lift {ℓ} : {A : Type ℓ} → Outcome A → Proc A
lift (ok a) = done a
lift (err e) = throw e
lift fault = crash

-- `if (bad) throw …;`
abbrev pub check : Bool → Error → Proc (Unit {0})
check bad e = if bad then throw e else done tt

-- The number of bytes is a `std::size_t`: 64 bits.
unfoldable pub send_block : List Block → ℕ → Proc (Unit {0})
send_block blocks nblock =
    let size = nblock * 16 % 2 ^ 64 in
    let bytes = bytes_of_blocks blocks in
    if ltb (length bytes) size then crash else send_data (take size bytes) (done tt)

unfoldable pub recv_block : ℕ → Proc (List Block)
recv_block nblock = recv_data (nblock * 16 % 2 ^ 64) (λ bytes. done (blocks_of_bytes nblock bytes))
