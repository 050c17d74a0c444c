-- ===== src/Net/Run.antt =====
-- Two processes and the bytes under way between them, run in any order of their steps. Each side
-- counts the bytes it has sent and received, as `get_bytes_sent` and `get_bytes_received` do.
use petace_verse.Common.{ℕ, zero, suc, ◌+◌, ◌≤◌, ◌≡◌, List, [], ◌++◌, length, take, drop}
use petace_verse.Net.{Proc, send_data, recv_data}

pub record Config (A B : Type 0) : Type 0 where
  pub left : Proc A
  pub right : Proc B
  pub to_left : List ℕ
  pub to_right : List ℕ
  pub left_sent : ℕ
  pub right_sent : ℕ
  pub left_received : ℕ
  pub right_received : ℕ

module _ {A B : Type 0} where
  -- A party sends without waiting; it receives once the stream holds the bytes it asks for.
  pub data Step (c : Config A B) : Config A B → Type 0 where
    left_sends :
        (bs : List ℕ) (p : Proc A)
        → c.left ≡ send_data bs p
        → Step c (record c {
          left = p;
          to_right = c.to_right ++ bs;
          left_sent = c.left_sent + length bs;
        })
    right_sends :
        (bs : List ℕ) (p : Proc B)
        → c.right ≡ send_data bs p
        → Step c (record c {
          right = p;
          to_left = c.to_left ++ bs;
          right_sent = c.right_sent + length bs;
        })
    left_receives :
        (n : ℕ) (k : List ℕ → Proc A)
        → c.left ≡ recv_data n k
        → n ≤ length c.to_left
        → Step c (record c {
          left = k (take n c.to_left);
          to_left = drop n c.to_left;
          left_received = c.left_received + n;
        })
    right_receives :
        (n : ℕ) (k : List ℕ → Proc B)
        → c.right ≡ recv_data n k
        → n ≤ length c.to_right
        → Step c (record c {
          right = k (take n c.to_right);
          to_right = drop n c.to_right;
          right_received = c.right_received + n;
        })

  -- Runs of `n` steps.
  pub data Steps : ℕ → Config A B → Config A B → Type 0 where
    here : {c : Config A B} → Steps zero c c
    next : {n : ℕ} {c d e : Config A B} → Step c d → Steps n d e → Steps (suc n) c e

-- Nothing is under way; the two sides have sent `l` and `r` bytes so far, and received each other's.
abbrev pub idle : {A B : Type 0} → ℕ → ℕ → Proc A → Proc B → Config A B
idle l r p q = record {
  left = p;
  right = q;
  to_left = [];
  to_right = [];
  left_sent = l;
  right_sent = r;
  left_received = r;
  right_received = l;
}

abbrev pub start : {A B : Type 0} → Proc A → Proc B → Config A B
start p q = idle 0 0 p q
