-- ===== src/Iknp/Setup.antt =====
-- From the base transfers to paired generators.
use mathlib.Core.List.{append-nil}
use petace_verse.Common.{
  ℕ, ◌+◌, ◌%◌, ◌*◌, ◌^◌, ◌<◌, List, length, get_or, ◌≡◌, refl, sym, ◌∙◌, arith, length-map,
}
use petace_verse.Util.Memory.{Block, IsBlock}
use petace_verse.Crypto.{Crypto, seeded}
use petace_verse.Iknp.{iknp_sender, iknp_receiver, sender_set_base_ots, receiver_set_base_ots}
use petace_verse.Pairing.{Paired-map, chosen}
use petace_verse.Iknp.Transfer.{Synced}

module _ (c : Crypto) where
  -- Fresh objects that take the two sides of 128 base transfers, in which the sender's received
  -- messages are the receiver's sent messages at the base choices, are set up for a session of any
  -- number of whole blocks of transfers, at least one and below 2^60.
  pub set_base_ots-Synced :
      (ext : ℕ) (choices recv : List Block) (sent : List (Block × Block))
      → 0 < ext
      → ext % 128 ≡ 0
      → ext * 16 < 2 ^ 64
      → 0 < length choices
      → IsBlock (get_or choices 0 0)
      → length recv ≡ 128
      → length sent ≡ 128
      → ((k : ℕ) → k < 128 → get_or recv k 0 ≡ chosen choices sent k)
      → Synced c
          (sender_set_base_ots c (iknp_sender c 128 ext) choices recv)
          (receiver_set_base_ots c (iknp_receiver c 128 ext) sent)
  unfolding sender_set_base_ots receiver_set_base_ots iknp_sender iknp_receiver
  set_base_ots-Synced ext choices recv sent pos he hf hc hb hr hs h = record {
    sender_base = refl;
    receiver_base = refl;
    same_ext = refl;
    fits = hf;
    some = pos;
    whole_blocks = he;
    has_choices = rw append-nil hc;
    choices_block = rw append-nil hb;
    enough = omega (arith, length-map recv (seeded c));
    paired = rw append-nil (
        Paired-map c choices 0 recv sent (hr ∙ sym hs)
          (λ k lt. let z : 0 + k ≡ k = omega arith in rw z (h k (omega arith))));
  }
