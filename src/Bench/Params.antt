-- ===== src/Bench/Params.antt =====
-- The network parameters that `main` of bench/bench.cpp gives a party.
use petace_verse.Common.{
  ℕ, List, [], ◌∷◌, ◌==◌, not, if◌then◌else◌, Outcome, ◌>>=◌, length, get_or, ◌⊎◌, inl, inr, ◌≡◌,
  ◌≢◌, refl, Error, different_sizes, not_two, ok, err, load, load-get_or, arith, Bool-cases, ne→==,
}

module _ (Host : Type 0) where
  -- The fields of `petace::network::NetParams` that `main` sets.
  pub record NetParams : Type 0 where
    pub remote_addr : Host
    pub remote_port : ℕ
    pub local_port : ℕ

abbrev pub or_default {ℓ} : {A : Type ℓ} → List A → List A → List A
or_default [] default = default
or_default (x ∷ xs) default = x ∷ xs

module _ {Host : Type 0} (host0 host1 : Host) where
  -- The parameters of two parties on these hosts name each other's address and port.
  pub record Meets (params0 params1 : NetParams Host) : Type 0 where
    pub to_host1 : params0.remote_addr ≡ host1
    pub to_host0 : params1.remote_addr ≡ host0
    pub to_port1 : params0.remote_port ≡ params1.local_port
    pub to_port0 : params1.remote_port ≡ params0.local_port

  -- `NetFactory::build` on the two hosts opens a connection whose parameters meet, on both sides.
  abbrev pub IsReachable :
      (NetParams Host → Outcome (Unit {0})) → (NetParams Host → Outcome (Unit {0})) → Type 0
  IsReachable build0 build1 =
      (params0 params1 : NetParams Host)
      → Meets params0 params1
      → (build0 params0 ≡ ok tt) × (build1 params1 ≡ ok tt)

-- `localhost` stands for the text "127.0.0.1".
module _ {Host : Type 0} (localhost : Host) where
  unfoldable pub net_params : ℕ → List Host → List ℕ → Outcome (NetParams Host)
  net_params party hosts ports =
      let host = or_default hosts (localhost ∷ localhost ∷ []) in
      let port = or_default ports (8089 ∷ 8090 ∷ []) in
      if not (length host == length port)
      then err different_sizes
      else if not (length host == 2)
      then err not_two
      else if party == 0
      then (do
        h ← load host 0
        remote ← load port 1
        local ← load port 0
        ok (record { remote_addr = h; remote_port = remote; local_port = local }))
      else (do
        h ← load host 1
        remote ← load port 0
        local ← load port 1
        ok (record { remote_addr = h; remote_port = remote; local_port = local }))

module _ {Host : Type 0} (localhost : Host) (hosts : List Host) (ports : List ℕ) where
  abbrev pub host_list : List Host
  host_list = or_default hosts (localhost ∷ localhost ∷ [])

  abbrev pub port_list : List ℕ
  port_list = or_default ports (8089 ∷ 8090 ∷ [])

  -- The parameters of party 0 and of another party.
  pub record Crossed (party : ℕ) : Type 0 where
    pub zero_params : NetParams Host
    pub other_params : NetParams Host
    pub zero_returns : net_params localhost 0 hosts ports ≡ ok zero_params
    pub other_returns : net_params localhost party hosts ports ≡ ok other_params
    pub to_other : zero_params.remote_port ≡ other_params.local_port
    pub to_zero : other_params.remote_port ≡ zero_params.local_port
    pub zero_addr : zero_params.remote_addr ≡ get_or host_list 0 localhost
    pub other_addr : other_params.remote_addr ≡ get_or host_list 1 localhost

  -- With two hosts and two ports, given or by default, each party connects to the port that the
  -- other listens on; party 0 looks for it at the first host and any other party at the second.
  pub ports_cross :
      (party : ℕ) → party ≢ 0 → length host_list ≡ 2 → length port_list ≡ 2 → Crossed party
  unfolding net_params
  ports_cross party ne h p = record {
    zero_params = record {
      remote_addr = get_or host_list 0 localhost;
      remote_port = get_or port_list 1 0;
      local_port = get_or port_list 0 0;
    };
    other_params = record {
      remote_addr = get_or host_list 1 localhost;
      remote_port = get_or port_list 0 0;
      local_port = get_or port_list 1 0;
    };
    zero_returns =
        rw
          (
            h,
            p,
            load-get_or host_list 0 localhost (omega (arith, h)),
            load-get_or port_list 1 0 (omega (arith, p)),
            load-get_or port_list 0 0 (omega (arith, p)),
          )
          refl;
    other_returns =
        rw
          (
            h,
            p,
            ne→== party 0 ne,
            load-get_or host_list 1 localhost (omega (arith, h)),
            load-get_or port_list 1 0 (omega (arith, p)),
            load-get_or port_list 0 0 (omega (arith, p)),
          )
          refl;
    to_other = refl;
    to_zero = refl;
    zero_addr = refl;
    other_addr = refl;
  }

  -- Any other number of hosts or ports is refused, for every party.
  pub net_params_refuses :
      (party : ℕ)
      → (length host_list ≢ length port_list) ⊎ (length host_list ≢ 2)
      → (e : Error) × (net_params localhost party hosts ports ≡ err e)
  unfolding net_params
  net_params_refuses party h = elim (Bool-cases (length host_list == length port_list)) [
    | inr a ↦ (different_sizes, rw a refl)
    | inl a ↦ elim (Bool-cases (length host_list == 2)) [
      | inr b ↦ (not_two, rw (a, b) refl)
      | inl b ↦ absurd (ground arith)
    ]
  ]
