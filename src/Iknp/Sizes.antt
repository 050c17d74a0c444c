-- ===== src/Iknp/Sizes.antt =====
-- Objects that were created for no base transfers, which the checks of the sizes let pass.
use petace_verse.Common.{
  fun_ext, ap, ℕ, zero, suc, ◌*◌, ◌/◌, ◌%◌, ◌<◌, List, [], ok, fault, build, ◌≡◌, refl, arith,
  eq→==, true, ◌==◌, build_entries,
}
use petace_verse.Util.Memory.{Block}
use petace_verse.Util.Transpose.{matrix_transpose}
use petace_verse.Util.Bytes.{bytes_of_blocks, blocks_of_bytes}
use petace_verse.Crypto.{Crypto}
use petace_verse.Net.{crash, send_data, recv_data, send_block, recv_block}
use petace_verse.Net.Run.{Steps, here, next, left_receives, right_sends, start, idle}
use petace_verse.Iknp.{IknpOtExtSender, IknpOtExtReceiver, send, extend, receive}
use petace_verse.Iknp.Matrix.{
  sender_rows, receiver_rows, transposed_columns, sender_messages, receiver_messages, cell,
}

no_rows : matrix_transpose [] 0 0 [] ≡ ok []
unfolding matrix_transpose
no_rows = refl

no_columns :
    (cols : ℕ) (matrix : List Block)
    → (out : List (List Block)) × (transposed_columns 0 cols matrix ≡ ok out)
unfolding transposed_columns build
no_columns cols matrix =
    let v = build_entries [] (λ k x. Unit {0}) _ cols (λ k lt. rw no_rows tt) in (v.0, v.1)

module _ (c : Crypto) where
  sender_faults :
      (ext : ℕ) (base_choices : List Block) (output : List (List Block))
      → 0 < ext
      → sender_messages c 0 ext base_choices output ≡ fault
  unfolding sender_messages build cell
  sender_faults zero base_choices output lt = absurd (omega arith)
  sender_faults (suc n) base_choices output lt = refl

  receiver_faults :
      (ext : ℕ) (output : List (List Block)) → 0 < ext → receiver_messages c 0 ext output ≡ fault
  unfolding receiver_messages build cell
  receiver_faults zero output lt = absurd (omega arith)
  receiver_faults (suc n) output lt = refl

  extend_crashes :
      (s : IknpOtExtSender c) (cols : ℕ) (recv : List Block)
      → 0 < s.ext_ot_sizes
      → extend c s 0 cols recv ≡ crash
  unfolding extend sender_rows
  extend_crashes s cols recv lt =
      let v = no_columns cols [] in
      rw (v.1, sender_faults s.ext_ot_sizes s.base_choices v.0 lt) refl

  send_crashes :
      (s : IknpOtExtSender c)
      → s.base_ot_sizes ≡ 0
      → s.ext_ot_sizes % 128 ≡ 0
      → 0 < s.ext_ot_sizes
      → send c s ≡ recv_data 0 (λ bytes. crash)
  unfolding send recv_block
  send_crashes s base whole lt =
      let whole' : (s.ext_ot_sizes % 128 == 0) ≡ true = eq→== (s.ext_ot_sizes % 128) 0 whole in
      let none : 0 * (s.ext_ot_sizes / 128) ≡ 0 = omega arith in
      rw (base, whole', none)
        (ap (recv_data 0) (
          fun_ext λ bytes.
            extend_crashes (record s { base_ot_sizes = 0 }) (s.ext_ot_sizes / 128)
              (blocks_of_bytes 0 bytes) lt))

  receive_crashes :
      (r : IknpOtExtReceiver c) (choices : List Block)
      → r.base_ot_sizes ≡ 0
      → r.ext_ot_sizes % 128 ≡ 0
      → 0 < r.ext_ot_sizes
      → receive c r choices ≡ send_data [] crash
  unfolding receive receiver_rows send_block bytes_of_blocks
  receive_crashes r choices base whole lt =
      let whole' : (r.ext_ot_sizes % 128 == 0) ≡ true = eq→== (r.ext_ot_sizes % 128) 0 whole in
      let none : 0 * (r.ext_ot_sizes / 128) ≡ 0 = omega arith in
      let v = no_columns (r.ext_ot_sizes / 128) [] in
      rw (base, whole', none, v.1, receiver_faults r.ext_ot_sizes v.0 lt) refl

  -- With no base transfers and at least one block of extended ones, no size is refused: the parties
  -- exchange an empty message, and then both divide by zero.
  pub zero_base_crashes :
      (s : IknpOtExtSender c) (r : IknpOtExtReceiver c) (choices : List Block)
      → (s.base_ot_sizes ≡ 0) × (r.base_ot_sizes ≡ 0)
      → (s.ext_ot_sizes % 128 ≡ 0) × (r.ext_ot_sizes % 128 ≡ 0)
      → (0 < s.ext_ot_sizes) × (0 < r.ext_ot_sizes)
      → Steps 2 (start (send c s) (receive c r choices)) (idle 0 0 crash crash)
  zero_base_crashes s r choices base whole some =
      next (right_sends [] crash (receive_crashes r choices base.1 whole.1 some.1)) (
        next (left_receives 0 (λ bytes. crash) (send_crashes s base.0 whole.0 some.0) (omega arith))
          here)
