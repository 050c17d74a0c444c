-- ===== src/Net/Message.antt =====
-- A run in which one party sends a vector of blocks and the other waits for it.
use petace_verse.Common.{
  ◌<◌, ◌^◌, ◌%◌, le→ltb, ◌+◌, ℕ, ◌*◌, ◌≡◌, refl, sym, ◌∙◌, ap, subst, List, [], length, take,
  take_all, drop_all, All, arith,
}
use petace_verse.Util.Memory.{Block, IsBlock}
use petace_verse.Util.Bytes.{
  bytes_of_blocks, blocks_of_bytes, length-bytes_of_blocks, blocks_of_bytes-bytes_of_blocks,
}
use petace_verse.Net.{done, Proc, send_data, recv_data, ◌>>=◌, ◌>>◌, send_block, recv_block}
use petace_verse.Net.Run.{
  Steps, here, next, left_receives, left_sends, right_receives, Config, right_sends, idle,
}

pub send_block-eq :
    (blocks : List Block) (n : ℕ)
    → length blocks ≡ n
    → n * 16 < 2 ^ 64
    → send_block blocks n ≡ send_data (bytes_of_blocks blocks) (done tt)
unfolding send_block
send_block-eq blocks n e lt =
    let bytes = bytes_of_blocks blocks in
    let size : length bytes ≡ n * 16 = length-bytes_of_blocks blocks ∙ ap (λ (t : ℕ). t * 16) e in
    let small : n * 16 % 2 ^ 64 ≡ n * 16 = omega arith in
    rw (small, le→ltb (length bytes) (n * 16) (omega (arith, size)), take_all (n * 16) bytes size)
      refl

pub recv_block-eq :
    (n : ℕ)
    → n * 16 < 2 ^ 64
    → recv_block n ≡ recv_data (n * 16) (λ bytes. done (blocks_of_bytes n bytes))
unfolding recv_block
recv_block-eq n lt = let small : n * 16 % 2 ^ 64 ≡ n * 16 = omega arith in rw small refl

module _ {A B : Type 0} where
  abbrev config : Proc A → Proc B → List ℕ → List ℕ → ℕ → ℕ → ℕ → ℕ → Config A B
  config p q x y l r l' r' = record {
    left = p;
    right = q;
    to_left = x;
    to_right = y;
    left_sent = l;
    right_sent = r;
    left_received = l';
    right_received = r';
  }

  -- The receiving party goes on with the very blocks that were sent.
  pub block_message :
      (p : Proc A) (q : Proc B) (blocks : List Block) (n : ℕ) (k : List Block → Proc A)
      (rest : Proc B) (i j : ℕ)
      → p ≡ recv_data (n * 16) (λ bytes. k (blocks_of_bytes n bytes))
      → q ≡ send_data (bytes_of_blocks blocks) rest
      → length blocks ≡ n
      → All IsBlock blocks
      → Steps 2 (idle i j p q) (idle i (j + n * 16) (k blocks) rest)
  block_message p q blocks n k rest i j e f same a =
      let bytes = bytes_of_blocks blocks in
      let size : length bytes ≡ n * 16 =
        length-bytes_of_blocks blocks ∙ ap (λ (t : ℕ). t * 16) same in
      let whole = take_all (n * 16) bytes size in
      let back : blocks_of_bytes n (take (n * 16) bytes) ≡ blocks =
        ap (blocks_of_bytes n) whole
        ∙ ap (λ (t : ℕ). blocks_of_bytes t bytes) (sym same)
        ∙ blocks_of_bytes-bytes_of_blocks blocks a in
      next (right_sends bytes rest f) (
        next (left_receives (n * 16) _ e (omega (arith, size))) (
          subst (λ d. Steps 0 d (idle i (j + n * 16) (k blocks) rest))
            (λ t.
              config (sym (ap k back) t) rest (sym (drop_all (n * 16) bytes size) t) [] i
                (j + sym size t) (j + n * 16) i)
            here))

  -- One party sends `a` and waits for `m` bytes; the other takes `a` and answers with `b`.
  pub exchange :
      (p : Proc A) (q : Proc B) (a b : List ℕ) (n m : ℕ) (k : List ℕ → Proc A) (l : List ℕ → Proc B)
      (rest : Proc B) (i j : ℕ)
      → p ≡ send_data a (recv_data m k)
      → q ≡ recv_data n l
      → length a ≡ n
      → l a ≡ send_data b rest
      → length b ≡ m
      → Steps 4 (idle i j p q) (idle (i + n) (j + m) (k b) rest)
  exchange p q a b n m k l rest i j e f size answer size' = next (left_sends a (recv_data m k) e) (
      next (right_receives n l f (omega (arith, size))) (
        next (right_sends b rest (ap l (take_all n a size) ∙ answer)) (
          next (left_receives m k refl (omega (arith, size'))) (
            subst (λ d. Steps 0 d (idle (i + n) (j + m) (k b) rest))
              (λ t.
                config (sym (ap k (take_all m b size')) t) rest (sym (drop_all m b size') t)
                  (sym (drop_all n a size) t) (i + sym size t) (j + sym size' t) (j + m) (i + n))
              here))))

  -- What one party sends with `send_block` the other receives with `recv_block`, block by block,
  -- when the vector holds as many blocks as both name, and 64 bits hold the number of their bytes;
  -- 16 bytes are sent for each.
  pub send_block-recv_block :
      (blocks : List Block) (n i j : ℕ) (k : List Block → Proc A) (rest : Proc B)
      → length blocks ≡ n
      → n * 16 < 2 ^ 64
      → All IsBlock blocks
      → Steps 2
          (idle i j (recv_block n >>= k) (send_block blocks n >> rest))
          (idle i (j + n * 16) (k blocks) rest)
  send_block-recv_block blocks n i j k rest e lt a =
      block_message (recv_block n >>= k) (send_block blocks n >> rest) blocks n k rest i j
        (ap (λ (p : Proc (List Block)). p >>= k) (recv_block-eq n lt))
        (ap (λ (p : Proc (Unit {0})). p >> rest) (send_block-eq blocks n e lt)) e a
