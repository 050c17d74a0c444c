-- ===== src/NaorPinkas/Bytes.antt =====
-- Keys and points: how many there are, and points read from the bytes of a message.
use mathlib.Core.List.{append_assoc, append-nil}
use petace_verse.Common.{
  ℕ, zero, suc, ◌*◌, List, [], ◌∷◌, ◌++◌, map, drop, take-append, drop-append, length,
  length-append, length-map, get_or, All, ◌≡◌, refl, sym, ap, ap₂, ◌∙◌, arith,
}
use petace_verse.Curve.{Curve, IsCurve}
use petace_verse.NaorPinkas.Points.{create_keys, bytes_of_points, points_of_bytes}

pub length-create_keys :
    (ec : Curve) (n : ℕ) (prng : ec.Source) → length (create_keys ec n prng).0 ≡ n
unfolding create_keys
length-create_keys ec zero prng = refl
length-create_keys ec (suc n) prng = ap suc (length-create_keys ec n (ec.create_secret_key prng).1)

pub get_or-map {ℓ κ} :
    {A : Type ℓ} {B : Type κ} (f : A → B) (xs : List A) (i : ℕ) (d : A)
    → get_or (map f xs) i (f d) ≡ f (get_or xs i d)
get_or-map f [] i d = refl
get_or-map f (x ∷ xs) zero d = refl
get_or-map f (x ∷ xs) (suc i) d = get_or-map f xs i d

-- The public keys of `n` fresh secret keys.
abbrev pub public_keys : (ec : Curve) → ℕ → ec.Source → List ec.Point
public_keys ec n prng = map ec.create_public_key (create_keys ec n prng).0

pub length-public_keys :
    (ec : Curve) (n : ℕ) (prng : ec.Source) → length (public_keys ec n prng) ≡ n
length-public_keys ec n prng =
    length-map (create_keys ec n prng).0 ec.create_public_key ∙ length-create_keys ec n prng

module _ (ec : Curve) (IsEncodable : ec.Point → Type 0) (w : IsCurve ec IsEncodable) where
  length-all_bytes : (ps : List ec.Point) → length (bytes_of_points ec ps) ≡ length ps * 33
  unfolding bytes_of_points
  length-all_bytes [] = omega arith
  length-all_bytes (p ∷ ps) = omega (
    arith,
    length-append (ec.point_to_bytes p 33) (bytes_of_points ec ps),
    w.length_point p,
    length-all_bytes ps,
  )

  points_of_whole_message :
      (ps : List ec.Point) (rest : List ℕ)
      → All IsEncodable ps
      → points_of_bytes ec (length ps) (bytes_of_points ec ps ++ rest) ≡ ps
  unfolding points_of_bytes bytes_of_points
  points_of_whole_message [] rest a = refl
  points_of_whole_message (p ∷ ps) rest a =
      let front = ec.point_to_bytes p 33 in
      let tail = bytes_of_points ec ps ++ rest in
      let whole : (front ++ bytes_of_points ec ps) ++ rest ≡ front ++ tail =
        append_assoc front (bytes_of_points ec ps) rest in
      rw whole (
        ap₂ ◌∷◌
          (ap (λ (bs : List ℕ). ec.point_from_bytes bs 33)
              (take-append 33 front tail (w.length_point p))
            ∙ w.point_round_trip p a.0)
          (ap (points_of_bytes ec (length ps)) (drop-append 33 front tail (w.length_point p))
            ∙ points_of_whole_message ps rest a.1))

  public-IsEncodable : (keys : List ec.SecretKey) → All IsEncodable (map ec.create_public_key keys)
  public-IsEncodable [] = tt
  public-IsEncodable (k ∷ keys) = (w.public_IsEncodable k, public-IsEncodable keys)

  pub length-bytes_of_points :
      (ps : List ec.Point) (n : ℕ) → length ps ≡ n → length (bytes_of_points ec ps) ≡ n * 33
  length-bytes_of_points ps n e = length-all_bytes ps ∙ ap (λ (t : ℕ). t * 33) e

  -- Points are read back from the front of the bytes that they were written to.
  pub points_of_bytes-bytes_of_points :
      (ps : List ec.Point) (n : ℕ) (rest : List ℕ)
      → length ps ≡ n
      → All IsEncodable ps
      → points_of_bytes ec n (bytes_of_points ec ps ++ rest) ≡ ps
  points_of_bytes-bytes_of_points ps n rest e a =
      ap (λ (t : ℕ). points_of_bytes ec t (bytes_of_points ec ps ++ rest)) (sym e)
      ∙ points_of_whole_message ps rest a

  pub whole_message :
      (ps : List ec.Point) (n : ℕ)
      → length ps ≡ n
      → All IsEncodable ps
      → points_of_bytes ec n (bytes_of_points ec ps) ≡ ps
  whole_message ps n e a =
      ap (points_of_bytes ec n) (sym (append-nil (bytes_of_points ec ps)))
      ∙ points_of_bytes-bytes_of_points ps n [] e a

  -- The two halves of the sender's first message.
  pub first_message :
      (n : ℕ) (prng prng' : ec.Source)
      → let ps = public_keys ec n prng in
        let qs = public_keys ec n prng' in
        let buff = bytes_of_points ec ps ++ bytes_of_points ec qs in
        (length buff ≡ 2 * n * 33)
        × (points_of_bytes ec n buff ≡ ps)
        × (points_of_bytes ec n (drop (n * 33) buff) ≡ qs)
  first_message n prng prng' =
      let ps = public_keys ec n prng in
      let qs = public_keys ec n prng' in
      let p_size = length-public_keys ec n prng in
      let q_size = length-public_keys ec n prng' in
      let p_long = length-bytes_of_points ps n p_size in
      (
        omega (
          arith,
          length-append (bytes_of_points ec ps) (bytes_of_points ec qs),
          p_long,
          length-bytes_of_points qs n q_size,
        ),
        points_of_bytes-bytes_of_points ps n (bytes_of_points ec qs) p_size
            (public-IsEncodable (create_keys ec n prng).0),
        ap (points_of_bytes ec n)
              (drop-append (n * 33) (bytes_of_points ec ps) (bytes_of_points ec qs) p_long)
            ∙ whole_message qs n q_size (public-IsEncodable (create_keys ec n prng').0),
      )
