-- ===== src/Examples/Net.antt =====
-- Witnesses of the theorems on bytes and messages.
use petace_verse.Common.{ℕ, List, [], ◌∷◌, refl, arith}
use petace_verse.Util.Memory.{Block}
use petace_verse.Net.{done, ◌>>=◌, ◌>>◌, send_block, recv_block}
use petace_verse.Net.Run.{Steps, idle}
use petace_verse.Net.Message.{send_block-recv_block}

abbrev some_blocks : List Block
some_blocks = 0x0123_4567_89ab_cdef_0123_4567_89ab_cdef ∷ 7 ∷ []

send_block-recv_block_example :
    Steps {A = List Block} {B = ℕ} 2
      (idle 3 4 (recv_block 2 >>= done) (send_block some_blocks 2 >> done 5))
      (idle 3 36 (done some_blocks) (done 5))
send_block-recv_block_example =
    send_block-recv_block some_blocks 2 3 4 done (done 5) refl (omega arith) (omega arith)
