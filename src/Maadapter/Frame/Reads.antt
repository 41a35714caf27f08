-- ===== src/Maadapter/Frame/Reads.antt =====
-- internal/maadapter/direct.go: what `readServerFrame` takes of the bytes that come in, and how long
-- the payload can be.
use Prim.Native.Nat.{bit_and}
use ma_dlna.Base.{
  ℕ, zero, suc, ◌+◌, ◌≤◌, ◌≡◌, refl, Bool, true, false, not, List, [], ◌∷◌, ◌==◌, ltb, leb, length,
  length-take, length-drop, get_or, arith, Bool-cases, ◌⊎◌, inl, inr,
}
use ma_dlna.Maadapter.Frame.{
  Error, Result, ok, err, ◌>>=◌, Frame, max_web_socket_payload_bytes, read_full, read_length,
  read_payload, read_limited, read_server_frame,
}
use ma_dlna.Maadapter.Frame.RoundTrip.{length-apply_mask}

-- What holds of a result, where there is one.
abbrev pub Holds {ℓ κ} : {A : Type ℓ} → (A → Type κ) → Result A → Type κ
Holds P (ok a) = P a
Holds P (err e) = Unit

pub Result-cases {ℓ} :
    {A : Type ℓ} (r : Result A) → ((e : Error) × (r ≡ err e)) ⊎ ((a : A) × (r ≡ ok a))
Result-cases (err e) = inl (e, refl)
Result-cases (ok a) = inr (a, refl)

Holds->>= {ℓ κ} :
    {A B : Type ℓ} (P : A → Type κ) (Q : B → Type κ) (m : Result A) (f : A → Result B)
    → Holds P m
    → ((a : A) → P a → Holds Q (f a))
    → Holds Q (m >>= f)
Holds->>= P Q (ok a) f h k = k a h
Holds->>= P Q (err e) f h k = tt

Holds-weaken {ℓ κ} :
    {A : Type ℓ} {P Q : A → Type κ} (m : Result A) → Holds P m → ((a : A) → P a → Q a) → Holds Q m
Holds-weaken (ok a) h k = k a h
Holds-weaken (err e) h k = tt

-- A read of `n` bytes.
abbrev Taken : ℕ → List ℕ → List ℕ × List ℕ → Type 0
Taken n s (xs, left) = (length xs ≡ n) × (n + length left ≡ length s)

read_full-Taken : (n : ℕ) (s : List ℕ) → Holds (Taken n s) (read_full n s)
unfolding read_full
read_full-Taken zero s = omega arith
read_full-Taken (suc n) [] = tt
read_full-Taken (suc n) (b ∷ bs) = elim (Bool-cases (leb n (length bs))) [
  | inl enough ↦ rw enough (ground (arith, length-take n bs, length-drop n bs))
  | inr short ↦ rw short tt
]

abbrev Shrunk : List ℕ → ℕ × List ℕ → Type 0
Shrunk s (n, left) = length left ≤ length s

read_length-Shrunk : (n : ℕ) (s : List ℕ) → Holds (Shrunk s) (read_length n s)
unfolding read_length
read_length-Shrunk n s = elim (Bool-cases (n == 126)) [
  | inl two ↦
      rw two (
        Holds->>= (Taken 2 s) (Shrunk s) (read_full 2 s) _ (read_full-Taken 2 s) λ r t. omega arith)
  | inr other ↦ elim (Bool-cases (n == 127)) [
    | inl eight ↦
        rw (other, eight)
          (Holds->>= (Taken 8 s) (Shrunk s) (read_full 8 s) _ (read_full-Taken 8 s)
            λ r t. omega arith)
    | inr short ↦ rw (other, short) (omega arith)
  ]
]

-- A payload of `n` bytes, out of `s`.
abbrev Filled : ℕ → List ℕ → List ℕ × List ℕ → Type 0
Filled n s (payload, left) = (length payload ≡ n) × (length left ≤ length s)

read_payload-Filled :
    (masked : Bool) (n : ℕ) (s : List ℕ) → Holds (Filled n s) (read_payload masked n s)
unfolding read_payload
read_payload-Filled false n s =
    Holds-weaken (read_full n s) (read_full-Taken n s) λ r t. omega arith
read_payload-Filled true n s =
    Holds->>= (Taken 4 s) (Filled n s) (read_full 4 s) _ (read_full-Taken 4 s) λ r t.
      Holds->>= (Taken n r.1) (Filled n s) (read_full n r.1) _ (read_full-Taken n r.1)
        λ r' t'. omega (arith, length-apply_mask r.0 0 r'.0)

-- The payload is within the limit.
abbrev Limited : List ℕ → List ℕ × List ℕ → Type 0
Limited s (payload, left) =
    (length payload ≤ max_web_socket_payload_bytes) × (length left ≤ length s)

read_limited-Limited :
    (masked : Bool) (n : ℕ) (s : List ℕ) → Holds (Limited s) (read_limited masked n s)
unfolding read_limited
read_limited-Limited masked n s = elim (Bool-cases (ltb max_web_socket_payload_bytes n)) [
  | inl large ↦ rw large tt
  | inr small ↦
      rw small (
        Holds-weaken (read_payload masked n s) (read_payload-Filled masked n s) λ r t. ground arith)
]

-- A frame takes two bytes at least, and its payload is within the limit.
abbrev pub Framed : List ℕ → Frame × List ℕ → Type 0
Framed s (fr, left) =
    (length fr.payload ≤ max_web_socket_payload_bytes) × (2 + length left ≤ length s)

pub read_server_frame-Framed : (s : List ℕ) → Holds (Framed s) (read_server_frame s)
unfolding read_server_frame
read_server_frame-Framed s =
    Holds->>= (Taken 2 s) (Framed s) (read_full 2 s) _ (read_full-Taken 2 s) λ h th.
      let h0 = get_or h.0 0 0 in
      let h1 = get_or h.0 1 0 in
      let masked = not (bit_and h1 0x80 == 0) in
      let frame = λ (payload : List ℕ) (left : List ℕ). ok (
        record { fin = not (bit_and h0 0x80 == 0); opcode = bit_and h0 0x0f; payload = payload },
        left,
      ) in
      Holds->>= (Shrunk h.1) (Framed s) (read_length (bit_and h1 0x7f) h.1) _
        (read_length-Shrunk (bit_and h1 0x7f) h.1)
        λ n tn.
          Holds->>= (Limited n.1) (Framed s) (read_limited masked n.0 n.1) (λ p. frame p.0 p.1)
            (read_limited-Limited masked n.0 n.1) λ p tp. omega arith
