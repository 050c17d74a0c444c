-- ===== src/Curve.antt =====
-- What the base transfers take from PETAce-Solo's elliptic curve (`solo::ECOpenSSL`), a parameter.
use petace_verse.Common.{ℕ, ◌≡◌, List, length, ◌∙◌, sym, ap}

pub record Curve : Type 1 where
  pub SecretKey : Type 0
  pub Point : Type 0
  -- A source of randomness for keys (`solo::PRNG`)
  pub Source : Type 0
  pub create_secret_key : Source → SecretKey × Source
  pub create_public_key : SecretKey → Point
  -- A point times a key
  pub encrypt : Point → SecretKey → Point
  pub invert : Point → Point
  pub add : Point → Point → Point
  pub point_to_bytes : Point → ℕ → List ℕ
  pub point_from_bytes : List ℕ → ℕ → Point

-- The points are a commutative group on which the keys act, the public keys are multiples of one
-- point, and 33 bytes hold a point of the kind `IsEncodable`, as every public key is.
pub record IsCurve (ec : Curve) (IsEncodable : ec.Point → Type 0) : Type 0 where
  pub add_comm : (p q : ec.Point) → ec.add p q ≡ ec.add q p
  pub add_assoc : (p q r : ec.Point) → ec.add (ec.add p q) r ≡ ec.add p (ec.add q r)
  pub add_cancel : (p q : ec.Point) → ec.add (ec.add p q) (ec.invert q) ≡ p
  pub encrypt_add :
      (p q : ec.Point) (k : ec.SecretKey)
      → ec.encrypt (ec.add p q) k ≡ ec.add (ec.encrypt p k) (ec.encrypt q k)
  pub encrypt_invert :
      (p : ec.Point) (k : ec.SecretKey) → ec.encrypt (ec.invert p) k ≡ ec.invert (ec.encrypt p k)
  pub encrypt_public :
      (k r : ec.SecretKey)
      → ec.encrypt (ec.create_public_key k) r ≡ ec.encrypt (ec.create_public_key r) k
  pub public_IsEncodable : (k : ec.SecretKey) → IsEncodable (ec.create_public_key k)
  pub length_point : (p : ec.Point) → length (ec.point_to_bytes p 33) ≡ 33
  pub point_round_trip :
      (p : ec.Point) → IsEncodable p → ec.point_from_bytes (ec.point_to_bytes p 33) 33 ≡ p

-- What the sender computes for a set choice bit is the shared point.
pub shared_point :
    (ec : Curve) (IsEncodable : ec.Point → Type 0)
    → IsCurve ec IsEncodable
    → (q : ec.Point) (k r : ec.SecretKey)
    → ec.add
        (ec.encrypt q r)
        (ec.invert (ec.encrypt (ec.add (ec.invert (ec.create_public_key k)) q) r))
      ≡ ec.encrypt (ec.create_public_key r) k
shared_point ec IsEncodable w q k r =
    let x = ec.encrypt (ec.create_public_key k) r in
    let y = ec.encrypt q r in
    let z = ec.add (ec.invert x) y in
    let image : ec.encrypt (ec.add (ec.invert (ec.create_public_key k)) q) r ≡ z =
      w.encrypt_add (ec.invert (ec.create_public_key k)) q r
      ∙ ap (λ (p : ec.Point). ec.add p y) (w.encrypt_invert (ec.create_public_key k) r) in
    let whole : y ≡ ec.add x z =
      sym (w.add_cancel y x)
      ∙ w.add_assoc y x (ec.invert x)
      ∙ w.add_comm y (ec.add x (ec.invert x))
      ∙ w.add_assoc x (ec.invert x) y in
    ap (λ (p : ec.Point). ec.add y (ec.invert p)) image
    ∙ ap (λ (p : ec.Point). ec.add p (ec.invert z)) whole
    ∙ w.add_cancel x z
    ∙ w.encrypt_public k r
