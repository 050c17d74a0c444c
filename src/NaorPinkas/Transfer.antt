-- ===== src/NaorPinkas/Transfer.antt =====
-- A whole run of the base transfers: what it starts from, and what it leaves.
use petace_verse.Common.{
  ℕ, ◌+◌, ◌*◌, ◌≤◌, ◌<◌, List, ◌++◌, map, drop, ok, ◌==◌, if◌then◌else◌, length, get_or, All, ◌≡◌,
  refl, sym, ap, ◌∙◌, subst,
}
use petace_verse.Common.Bits.{bit-lt-two}
use petace_verse.Util.Memory.{Block, bit_at}
use petace_verse.Crypto.{Crypto}
use petace_verse.Curve.{Curve, IsCurve}
use petace_verse.Pairing.{chosen}
use petace_verse.Net.{Proc, done, lift, send_data, recv_data, ◌>>=◌}
use petace_verse.Net.Run.{Steps, idle}
use petace_verse.Net.Message.{exchange}
use petace_verse.NaorPinkas.{NaorPinkasSender, NaorPinkasReceiver, send, receive}
use petace_verse.NaorPinkas.Points.{
  create_keys, bytes_of_points, points_of_bytes, sigma_points, sender_messages, receiver_messages,
}
use petace_verse.NaorPinkas.Bytes.{
  public_keys, length-public_keys, first_message, whole_message, length-create_keys, get_or-map,
  length-bytes_of_points,
}
use petace_verse.NaorPinkas.Messages.{
  sigma_points_lem, sender_messages_lem, receiver_messages_lem, agree_at, message_pair, message_at,
}

module _ (c : Crypto) (ec : Curve) where
  -- What either party does with the bytes it has received.
  abbrev finish :
      NaorPinkasSender ec → ℕ → List ℕ → Proc (List (Block × Block) × NaorPinkasSender ec)
  finish s n buff =
      let c_keys = create_keys ec n s.prng in
      let gr_keys = create_keys ec n c_keys.1 in
      lift (
        sender_messages c ec n (map ec.create_public_key c_keys.0) gr_keys.0
          (points_of_bytes ec n buff))
      >>= λ messages. done (messages, record s { prng = gr_keys.1 })

  abbrev reply :
      NaorPinkasReceiver ec → List Block → ℕ → List ℕ → Proc (List Block × NaorPinkasReceiver ec)
  reply r choices n buff =
      let keys = create_keys ec n r.prng in
      lift (sigma_points ec n choices keys.0 (points_of_bytes ec n buff)) >>= λ sigma.
      send_data (bytes_of_points ec sigma) (
        lift (receiver_messages c ec n choices keys.0 (points_of_bytes ec n (drop (n * 33) buff)))
        >>= λ messages. done (messages, record r { prng = keys.1 }))

  receive-eq :
      (r : NaorPinkasReceiver ec) (choices : List Block) (n : ℕ)
      → r.base_ot_sizes ≡ n
      → receive c ec r choices ≡ recv_data (2 * n * 33) (reply r choices n)
  unfolding receive
  receive-eq r choices n same = ap (λ (t : ℕ). recv_data (2 * t * 33) (reply r choices t)) same

  reply-eq :
      (r : NaorPinkasReceiver ec) (choices : List Block) (n : ℕ) (buff : List ℕ)
      (c_pk gr_pk sigma : List ec.Point) (messages : List Block)
      → points_of_bytes ec n buff ≡ c_pk
      → points_of_bytes ec n (drop (n * 33) buff) ≡ gr_pk
      → sigma_points ec n choices (create_keys ec n r.prng).0 c_pk ≡ ok sigma
      → receiver_messages c ec n choices (create_keys ec n r.prng).0 gr_pk ≡ ok messages
      → reply r choices n buff
        ≡ send_data
            (bytes_of_points ec sigma)
            (done (messages, record r { prng = (create_keys ec n r.prng).1 }))
  reply-eq r choices n buff c_pk gr_pk sigma messages c_back gr_back points ms =
      rw (c_back, gr_back, points, ms) refl

  -- A run: the final configuration, with what it means for the parties.
  pub record BaseTransferred (s : NaorPinkasSender ec) (r : NaorPinkasReceiver ec)
      (choices : List Block) : Type 0 where
    pub sent : List (Block × Block)
    pub received : List Block
    pub sender : NaorPinkasSender ec
    pub receiver : NaorPinkasReceiver ec
    pub run :
        (i j : ℕ)
        → Steps 4 (idle i j (send c ec s) (receive c ec r choices)) (
            idle
              (i + 2 * s.base_ot_sizes * 33)
              (j + s.base_ot_sizes * 33)
              (done (sent, sender))
              (done (received, receiver)))
    pub sender_size : sender.base_ot_sizes ≡ s.base_ot_sizes
    pub receiver_size : receiver.base_ot_sizes ≡ s.base_ot_sizes
    pub sender_source :
        sender.prng ≡ (create_keys ec s.base_ot_sizes (create_keys ec s.base_ot_sizes s.prng).1).1
    pub receiver_source : receiver.prng ≡ (create_keys ec s.base_ot_sizes r.prng).1
    pub length_sent : length sent ≡ s.base_ot_sizes
    pub length_received : length received ≡ s.base_ot_sizes
    pub picks : (i : ℕ) → i < s.base_ot_sizes → get_or received i 0 ≡ chosen choices sent i

  -- When sender and receiver are created for the same number of transfers, the choices have as many
  -- bits and the receiver's points are such that 33 bytes hold them, a run ends with a result on
  -- both sides, the receiver's message of every transfer is the sender's message at the choice bit,
  -- and the parties send 66 and 33 bytes for each transfer, in one message each.
  pub base_session_transfers :
      (s : NaorPinkasSender ec) (r : NaorPinkasReceiver ec) (choices : List Block)
      (IsEncodable : ec.Point → Type 0)
      → IsCurve ec IsEncodable
      → r.base_ot_sizes ≡ s.base_ot_sizes
      → s.base_ot_sizes ≤ 128 * length choices
      → ((sigma : List ec.Point)
          → sigma_points ec s.base_ot_sizes choices
              (create_keys ec s.base_ot_sizes r.prng).0
              (public_keys ec s.base_ot_sizes s.prng)
            ≡ ok sigma
          → All IsEncodable sigma)
      → BaseTransferred s r choices
  unfolding send
  base_session_transfers s r choices IsEncodable w same enough encodable =
      let n = s.base_ot_sizes in
      let c_keys = create_keys ec n s.prng in
      let gr_keys = create_keys ec n c_keys.1 in
      let keys = create_keys ec n r.prng in
      let c_pk = public_keys ec n s.prng in
      let gr_pk = public_keys ec n c_keys.1 in
      let c_size = length-public_keys ec n s.prng in
      let gr_size = length-public_keys ec n c_keys.1 in
      let dk : ec.SecretKey = (ec.create_secret_key r.prng).0 in
      let dq : ec.Point = ec.create_public_key dk in
      let first = first_message ec IsEncodable w n s.prng c_keys.1 in
      let buff = bytes_of_points ec c_pk ++ bytes_of_points ec gr_pk in
      let sigma =
        sigma_points_lem ec n choices keys.0 c_pk dk dq (length-create_keys ec n r.prng) c_size
          enough in
      let sigma_back =
        whole_message ec IsEncodable w sigma.0 n sigma.2 (encodable sigma.0 sigma.1) in
      let ms =
        sender_messages_lem c ec n c_pk sigma.0 gr_keys.0 dk dq c_size
          (length-create_keys ec n c_keys.1) sigma.2 in
      let mr =
        receiver_messages_lem c ec n choices keys.0 gr_pk dk dq (length-create_keys ec n r.prng)
          gr_size enough in
      record {
        sent = ms.0;
        received = mr.0;
        sender = record s { prng = gr_keys.1 };
        receiver = record r { prng = keys.1 };
        run = λ i j.
            subst
              (λ p.
                Steps 4 (idle i j (send c ec s) (receive c ec r choices))
                  (idle (i + 2 * n * 33) (j + n * 33) p (done (mr.0, record r { prng = keys.1 }))))
              (rw (sigma_back, ms.1) refl)
              (exchange (send c ec s) (receive c ec r choices) buff (bytes_of_points ec sigma.0)
                (2 * n * 33) (n * 33) (finish s n) (reply r choices n) _ i j refl
                (receive-eq r choices n same) first.0
                (reply-eq r choices n buff c_pk gr_pk sigma.0 mr.0 first.1 first.2 sigma.1 mr.1)
                (length-bytes_of_points ec IsEncodable w sigma.0 n sigma.2));
        sender_size = refl;
        receiver_size = same;
        sender_source = refl;
        receiver_source = refl;
        length_sent = ms.2;
        length_received = mr.2;
        picks = λ i lt.
            mr.3 i lt
            ∙ ap (message_at c ec (bit_at choices i) (get_or keys.0 i dk))
                (get_or-map ec.create_public_key gr_keys.0 i dk)
            ∙ agree_at c ec IsEncodable w (bit_at choices i) (get_or keys.0 i dk)
                (get_or gr_keys.0 i dk) (get_or c_pk i dq) (bit-lt-two _ _)
            ∙ ap (λ (m : Block × Block). if bit_at choices i == 0 then m.0 else m.1)
                (sym (
                  ms.3 i lt
                  ∙ ap (message_pair c ec (get_or gr_keys.0 i dk) (get_or c_pk i dq))
                      (sigma.3 i lt)));
      }
