-- ===== src/Messages/Structs.antt =====
-- include/comunications.h: the messages as the bytes that are sent, on a machine with little-endian
-- ints of four bytes and doubles of eight. What a received message does not cover of a struct stays
-- as it was in memory.
use poste_italiane_simulatio.Prelude.{
  ℕ, ◌+◌, ◌*◌, ◌/◌, ◌%◌, ◌^◌, ◌<◌, ◌≡◌, refl, ap, [], ◌∷◌, ◌++◌, Outcome, ok, fault, ◌>>=◌, length,
  arith,
}
use poste_italiane_simulatio.Config.Scan.{Bytes}

unfoldable pub encode_int : ℕ → Bytes
encode_int x = x % 256 ∷ x / 256 % 256 ∷ x / 65536 % 256 ∷ x / 16777216 % 256 ∷ []

-- The int at the front, and what follows it.
unfoldable pub decode_int : Bytes → Outcome (ℕ × Bytes)
decode_int (a ∷ b ∷ c ∷ d ∷ rest) = ok (a + 256 * b + 65536 * c + 16777216 * d, rest)
decode_int _ = fault

pub decode_int-encode_int :
    (x : ℕ) (rest : Bytes) → x < 2 ^ 32 → decode_int (encode_int x ++ rest) ≡ ok (x, rest)
unfolding encode_int decode_int
decode_int-encode_int x rest h = ap (λ y. ok (y, rest)) (omega arith)

-- `memcpy(buffer, data, length)`.
unfoldable pub memcpy : (buffer data' : Bytes) → Outcome Bytes
memcpy buffer [] = ok buffer
memcpy [] (d ∷ ds) = fault
memcpy (b ∷ buffer) (d ∷ ds) = memcpy buffer ds >>= λ rest. ok (d ∷ rest)

pub memcpy_all : (buffer ds : Bytes) → length buffer ≡ length ds → memcpy buffer ds ≡ ok ds
unfolding memcpy
memcpy_all [] [] e = refl
memcpy_all [] (d ∷ ds) e = cc
memcpy_all (b ∷ buffer) [] e = cc
memcpy_all (b ∷ buffer) (d ∷ ds) e = rw (memcpy_all buffer ds (omega arith)) refl

-- The structs of two ints.
pub record TicketRequest : Type 0 where
  pub sender_pid : ℕ
  pub service_id : ℕ

pub record TicketResponse : Type 0 where
  pub generator_pid : ℕ
  pub ticket_number : ℕ

pub record ServiceRequest : Type 0 where
  pub sender_pid : ℕ
  pub ticket_number : ℕ

pub record NewUsersRequest : Type 0 where
  pub sender_pid : ℕ
  pub n_new_users : ℕ

pub record ServiceDone (F : Type 0) : Type 0 where
  pub sender_pid : ℕ
  pub ticket_number : ℕ
  pub service_id : ℕ
  pub service_time : F

abbrev encode_pair : ℕ → ℕ → Bytes
encode_pair a b = encode_int a ++ encode_int b

abbrev decode_pair : Bytes → Outcome (ℕ × ℕ)
decode_pair bytes = do (a, rest) ← decode_int bytes; (b, _) ← decode_int rest; ok (a, b)

abbrev pub encode_ticket_request : TicketRequest → Bytes
encode_ticket_request q = encode_pair q.sender_pid q.service_id

abbrev pub decode_ticket_request : Bytes → Outcome TicketRequest
decode_ticket_request bytes = do
  (pid, service) ← decode_pair bytes
  ok (record { sender_pid = pid; service_id = service })

abbrev pub encode_ticket_response : TicketResponse → Bytes
encode_ticket_response r = encode_pair r.generator_pid r.ticket_number

abbrev pub decode_ticket_response : Bytes → Outcome TicketResponse
decode_ticket_response bytes = do
  (pid, ticket) ← decode_pair bytes
  ok (record { generator_pid = pid; ticket_number = ticket })

abbrev pub encode_service_request : ServiceRequest → Bytes
encode_service_request q = encode_pair q.sender_pid q.ticket_number

abbrev pub decode_service_request : Bytes → Outcome ServiceRequest
decode_service_request bytes = do
  (pid, ticket) ← decode_pair bytes
  ok (record { sender_pid = pid; ticket_number = ticket })

abbrev pub encode_new_users_request : NewUsersRequest → Bytes
encode_new_users_request q = encode_pair q.sender_pid q.n_new_users

abbrev pub decode_new_users_request : Bytes → Outcome NewUsersRequest
decode_new_users_request bytes = do
  (pid, n) ← decode_pair bytes
  ok (record { sender_pid = pid; n_new_users = n })

-- A number that an int holds.
abbrev pub IsInt : ℕ → Type 0
IsInt x = x < 2 ^ 32

decode_last : (x : ℕ) → x < 2 ^ 32 → decode_int (encode_int x) ≡ ok (x, [])
unfolding encode_int decode_int
decode_last x h = ap (λ y. ok (y, [])) (omega arith)

decode_pair-encode_pair : (a b : ℕ) → IsInt a → IsInt b → decode_pair (encode_pair a b) ≡ ok (a, b)
decode_pair-encode_pair a b ha hb =
    rw (decode_int-encode_int a (encode_int b) ha, decode_last b hb) refl

length-encode_int : (x : ℕ) → length (encode_int x) ≡ 4
unfolding encode_int
length-encode_int x = refl

pub length-encode_pair : (a b : ℕ) → length (encode_pair a b) ≡ 8
unfolding encode_int
length-encode_pair a b = refl

pub decode-encode_ticket_request :
    (q : TicketRequest)
    → IsInt q.sender_pid
    → IsInt q.service_id
    → decode_ticket_request (encode_ticket_request q) ≡ ok q
decode-encode_ticket_request q h k = rw (decode_pair-encode_pair q.sender_pid q.service_id h k) refl

pub decode-encode_ticket_response :
    (r : TicketResponse)
    → IsInt r.generator_pid
    → IsInt r.ticket_number
    → decode_ticket_response (encode_ticket_response r) ≡ ok r
decode-encode_ticket_response r h k =
    rw (decode_pair-encode_pair r.generator_pid r.ticket_number h k) refl

pub decode-encode_service_request :
    (q : ServiceRequest)
    → IsInt q.sender_pid
    → IsInt q.ticket_number
    → decode_service_request (encode_service_request q) ≡ ok q
decode-encode_service_request q h k =
    rw (decode_pair-encode_pair q.sender_pid q.ticket_number h k) refl

pub decode-encode_new_users_request :
    (q : NewUsersRequest)
    → IsInt q.sender_pid
    → IsInt q.n_new_users
    → decode_new_users_request (encode_new_users_request q) ≡ ok q
decode-encode_new_users_request q h k =
    rw (decode_pair-encode_pair q.sender_pid q.n_new_users h k) refl

-- How the machine stores a double.
pub record DoubleCodec (F : Type 0) : Type 0 where
  pub encode : F → Bytes
  pub decode : Bytes → F
  pub length-encode : (x : F) → length (encode x) ≡ 8
  pub decode-encode : (x : F) → decode (encode x) ≡ x

module _ {F : Type 0} (C : DoubleCodec F) where
  -- Three ints, four bytes of padding, and the double.
  abbrev pub encode_service_done : (padding : ℕ) → ServiceDone F → Bytes
  encode_service_done padding r =
      encode_int r.sender_pid
      ++ (encode_int r.ticket_number
          ++ (encode_int r.service_id ++ (encode_int padding ++ C.encode r.service_time)))

  abbrev pub decode_service_done : Bytes → Outcome (ServiceDone F)
  decode_service_done bytes = do
    (pid, rest) ← decode_int bytes
    (ticket, rest') ← decode_int rest
    (service, rest'') ← decode_int rest'
    (_, double) ← decode_int rest''
    ok (record {
      sender_pid = pid;
      ticket_number = ticket;
      service_id = service;
      service_time = C.decode double;
    })

  pub length-encode_service_done :
      (padding : ℕ) (r : ServiceDone F) → length (encode_service_done padding r) ≡ 24
  unfolding encode_int
  length-encode_service_done padding r = omega (arith, C.length-encode r.service_time)

  pub decode-encode_service_done :
      (padding : ℕ) (r : ServiceDone F)
      → IsInt padding
      → IsInt r.sender_pid
      → IsInt r.ticket_number
      → IsInt r.service_id
      → decode_service_done (encode_service_done padding r) ≡ ok r
  decode-encode_service_done padding r hp h k m = rw (decode_int-encode_int r.sender_pid _ h) (
      rw (decode_int-encode_int r.ticket_number _ k) (
        rw (decode_int-encode_int r.service_id _ m) (
          rw
            (
              decode_int-encode_int padding (C.encode r.service_time) hp,
              C.decode-encode r.service_time,
            )
            refl)))
