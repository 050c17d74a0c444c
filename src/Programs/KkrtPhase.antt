-- ===== src/Programs/KkrtPhase.antt =====
-- The KKRT extension in the programs: 1024 transfers after 512 base transfers.
use petace_verse.Common.{
  ℕ, suc, ◌*◌, ◌/◌, List, length, All, All-tabulate, tabulate, length-tabulate, ◌≡◌, refl, subst,
  arith,
}
use petace_verse.Util.Memory.{Block, IsBlock, set_epi64x}
use petace_verse.Crypto.{Crypto, IsCrypto}
use petace_verse.Curve.{Curve}
use petace_verse.Kkrt as Kkrt
use petace_verse.Kkrt.{
  KkrtNcoOtExtSender, KkrtNcoOtExtReceiver, kkrt_sender, kkrt_receiver, round_up,
}
use petace_verse.Kkrt.Setup.{set_base_ots-EncodeSynced}
use petace_verse.Factory.{VerseParams}
use petace_verse.Sessions.{Session}
use petace_verse.Sessions.Protocols.{Encodes, KkrtReady, kkrt-Session}
use petace_verse.Programs.{Environment, IsEnvironment, read_block_from_dev_urandom, urandom-IsBlock}
use petace_verse.Programs.BasePhase.{BasePhase}

abbrev pub params : VerseParams
params = record { base_ot_sizes = 512; ext_ot_sizes = 1024 }

abbrev pub base_choices_of : {ec : Curve} → Environment ec → List Block
base_choices_of env = tabulate 4 0 (read_block_from_dev_urandom env)

-- The choices 0, 1, 2, …
abbrev pub ext_choices : List Block
ext_choices = tabulate 1024 0 (set_epi64x 0)

ext_choices-IsBlock : All IsBlock ext_choices
unfolding set_epi64x
ext_choices-IsBlock = All-tabulate IsBlock 1024 0 (set_epi64x 0) (λ k. omega arith)

module _ (c : Crypto) (ec : Curve) where
  -- After the base transfers the two extension objects are ready for any number of sessions.
  pub kkrt_prepared :
      (env0 env1 : Environment ec)
      → IsEnvironment env0
      → (base : BasePhase c ec 512 (base_choices_of env0) env0 env1) → (m : ℕ)
      → KkrtReady c 512 m
          (Kkrt.sender_set_base_ots c (kkrt_sender c 512) (base_choices_of env0) base.received)
          (Kkrt.receiver_set_base_ots c (kkrt_receiver c 512) base.sent)
  unfolding Kkrt.sender_set_base_ots kkrt_sender
  kkrt_prepared env0 env1 e base m = (
    set_base_ots-EncodeSynced c 512 (base_choices_of env0) base.received base.sent refl
        (omega arith)
        (All-tabulate IsBlock 4 0 (read_block_from_dev_urandom env0) (urandom-IsBlock env0 e))
        base.chose.1 base.chose.0 base.chose.2,
    refl,
  )

-- Calls of the two methods on objects that are ready for them.
pub kkrt_calls :
    (c : Crypto)
    → IsCrypto c
    → (m : ℕ) (s : KkrtNcoOtExtSender c) (r : KkrtNcoOtExtReceiver c) → KkrtReady c 512 (suc m) s r
    → Session
        (λ (t : KkrtNcoOtExtSender c). Kkrt.send c t 1024)
        (λ (t : KkrtNcoOtExtReceiver c). Kkrt.receive c t ext_choices)
        (KkrtReady c 512)
        (λ s' r' (x : Unit {0}). Encodes c ext_choices s')
        2
        0
        (1024 * 4 * 16)
        m
        s
        r
unfolding round_up
kkrt_calls c w m s r ready =
    let size : length ext_choices ≡ 1024 = length-tabulate 1024 0 (set_epi64x 0) in
    subst
      (λ (n : ℕ).
        Session (λ (t : KkrtNcoOtExtSender c). Kkrt.send c t n)
          (λ (t : KkrtNcoOtExtReceiver c). Kkrt.receive c t ext_choices) (KkrtReady c 512)
          (λ s' r' (x : Unit {0}). Encodes c ext_choices s') 2 0 (round_up n * (512 / 128) * 16) m s
          r)
      size (kkrt-Session c w ext_choices ext_choices-IsBlock 512 m s r (omega (arith, size)) ready)
