-- ===== src/Programs/IknpPhase.antt =====
-- The IKNP extension in the programs: 1024 transfers after 128 base transfers.
use petace_verse.Common.{
  ℕ, suc, ◌*◌, ◌/◌, List, [], ◌∷◌, All-tabulate, tabulate, length-tabulate, refl, arith,
}
use petace_verse.Util.Memory.{Block, IsBlock}
use petace_verse.Crypto.{Crypto, IsCrypto}
use petace_verse.Curve.{Curve}
use petace_verse.Iknp as Iknp
use petace_verse.Iknp.{IknpOtExtSender, IknpOtExtReceiver, iknp_sender, iknp_receiver}
use petace_verse.Iknp.Setup.{set_base_ots-Synced}
use petace_verse.Factory.{VerseParams}
use petace_verse.Sessions.{Session}
use petace_verse.Sessions.Protocols.{Chose, IknpReady, iknp-Session}
use petace_verse.Programs.{Environment, IsEnvironment, read_block_from_dev_urandom, urandom-IsBlock}
use petace_verse.Programs.BasePhase.{BasePhase}

abbrev pub params : VerseParams
params = record { base_ot_sizes = 128; ext_ot_sizes = 1024 }

module _ {ec : Curve} where
  abbrev pub base_choices_of : Environment ec → List Block
  base_choices_of env = read_block_from_dev_urandom env 0 ∷ []

  abbrev pub ext_choices_of : Environment ec → List Block
  ext_choices_of env = tabulate (1024 / 16) 1 (read_block_from_dev_urandom env)

module _ (c : Crypto) (ec : Curve) where
  -- After the base transfers the two extension objects are ready for any number of sessions.
  pub iknp_prepared :
      (env0 env1 : Environment ec)
      → IsEnvironment env0
      → (base : BasePhase c ec 128 (base_choices_of env0) env0 env1) → (m : ℕ)
      → IknpReady c 1024 m
          (Iknp.sender_set_base_ots c (iknp_sender c 128 1024) (base_choices_of env0) base.received)
          (Iknp.receiver_set_base_ots c (iknp_receiver c 128 1024) base.sent)
  unfolding Iknp.sender_set_base_ots iknp_sender
  iknp_prepared env0 env1 e base m = (
    set_base_ots-Synced c 1024 (base_choices_of env0) base.received base.sent (omega arith) refl
        (omega arith) (omega arith) (urandom-IsBlock env0 e 0) base.chose.1 base.chose.0
        base.chose.2,
    refl,
  )

  -- Calls of the two methods on objects that are ready for them.
  pub iknp_calls :
      (env : Environment ec)
      → IsCrypto c
      → IsEnvironment env
      → (m : ℕ) (s : IknpOtExtSender c) (r : IknpOtExtReceiver c) → IknpReady c 1024 (suc m) s r
      → Session
          (Iknp.send c)
          (λ (t : IknpOtExtReceiver c). Iknp.receive c t (ext_choices_of env))
          (IknpReady c 1024)
          (λ s' r'. Chose 1024 (ext_choices_of env))
          2
          0
          (1024 * 16)
          m
          s
          r
  iknp_calls env w e =
      iknp-Session c w (ext_choices_of env)
        (All-tabulate IsBlock (1024 / 16) 1 (read_block_from_dev_urandom env)
          (urandom-IsBlock env e))
        1024 (omega (arith, length-tabulate (1024 / 16) 1 (read_block_from_dev_urandom env)))
