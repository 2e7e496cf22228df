-- ===== src/Network/Reading.antt =====
-- What recv_exact reads, however the bytes are cut into packets.
use mathlib.Core.Path.{subst}
use blockchain_workshop.Prelude.{
  ℕ, zero, suc, ◌+◌, ◌-◌, ◌≤◌, ◌<◌, [], ◌∷◌, ◌++◌, append_assoc, ◌≡◌, ◌≢◌, ◌⊎◌, refl, sym, ap, ◌∙◌,
  inl, inr, none, some, ok, Bytes, length, take, drop, length-append, leb, Bool-cases, arith,
}
use native.Mathlib.Decide.{dec_lt}
use blockchain_workshop.Network.Socket.{
  packet, failure, Socket, recv, recv_loop, recv_exact, bytes_of,
}

take-length-append :
    (n : ℕ) (xs ys : Bytes) → length xs ≡ n → (take n (xs ++ ys) ≡ xs) × (drop n (xs ++ ys) ≡ ys)
take-length-append zero [] ys h = (refl, refl)
take-length-append zero (x ∷ xs) ys h = absurd (omega arith)
take-length-append (suc n) [] ys h = absurd (omega arith)
take-length-append (suc n) (x ∷ xs) ys h = ground (arith, take-length-append n xs ys)

take-drop : (n : ℕ) (xs : Bytes) → take n xs ++ drop n xs ≡ xs
take-drop zero xs = refl
take-drop (suc n) [] = refl
take-drop (suc n) (x ∷ xs) = ground (arith, take-drop n xs)

length-take-le : (n : ℕ) (xs : Bytes) → length (take n xs) ≤ n
length-take-le zero xs = omega arith
length-take-le (suc n) [] = omega arith
length-take-le (suc n) (x ∷ xs) = omega (arith, length-take-le n xs)

drop_more : (n : ℕ) (xs : Bytes) → n < length xs → drop n xs ≢ []
drop_more zero [] h = absurd (omega arith)
drop_more zero (x ∷ xs) h = λ e. cc e
drop_more (suc n) [] h = absurd (omega arith)
drop_more (suc n) (x ∷ xs) h = drop_more n xs (omega arith)

bytes_of-packet :
    (p : Bytes) (rest : Socket) → p ≢ [] → bytes_of (packet p ∷ rest) ≡ p ++ bytes_of rest
unfolding bytes_of
bytes_of-packet [] rest h = absurd (h refl)
bytes_of-packet (b ∷ p) rest h = refl

-- What one call of recv does: nothing is left, or it brings the next bytes.
record Ends (k : ℕ) (sock : Socket) : Type 0 where
  left : Socket
  nothing : bytes_of sock ≡ []
  got : (recv k sock ≡ (none, left)) ⊎ (recv k sock ≡ (some [], left))

record Brings (k : ℕ) (sock : Socket) : Type 0 where
  head : ℕ
  tail : Bytes
  left : Socket
  got : recv k sock ≡ (some (head ∷ tail), left)
  few : length (head ∷ tail) ≤ k
  next : bytes_of sock ≡ (head ∷ tail) ++ bytes_of left

recv-cases : (k : ℕ) (sock : Socket) → 0 < k → Ends k sock ⊎ Brings k sock
unfolding recv bytes_of
recv-cases zero sock h = absurd (omega arith)
recv-cases (suc k) [] h = inl (record { left = []; nothing = refl; got = inr refl })
recv-cases (suc k) (failure ∷ rest) h = inl (record { left = rest; nothing = refl; got = inl refl })
recv-cases (suc k) (packet [] ∷ rest) h =
    inl (record { left = rest; nothing = refl; got = inr (ground arith) })
recv-cases (suc k) (packet (b ∷ p) ∷ rest) h = elim (Bool-cases (leb (suc (length p)) (suc k))) [
  | inl t ↦
      inr (record {
        head = b;
        tail = p;
        left = rest;
        got = rw t refl;
        few = ground arith;
        next = refl;
      })
  | inr t ↦ inr (record {
    head = b;
    tail = take k p;
    left = packet (drop k p) ∷ rest;
    got = rw t refl;
    few = omega (arith, length-take-le k p);
    next =
        ap (λ x. b ∷ x)
          (ap (λ x. x ++ bytes_of rest) (sym (take-drop k p))
            ∙ append_assoc (take k p) (drop k p) (bytes_of rest)
            ∙ ap (λ x. take k p ++ x)
                (sym (bytes_of-packet (drop k p) rest (drop_more k p (ground arith)))));
  })
]

-- The loop returns the first n bytes of the data so far and the stream, and leaves the others.
abbrev Reads : ℕ → ℕ → Bytes → Socket → Type 0
Reads fuel n data' sock =
    (left : Socket) × (recv_loop fuel n data' sock
      ≡ (ok (some (take n (data' ++ bytes_of sock))), left))
    × (bytes_of left ≡ drop n (data' ++ bytes_of sock))

abbrev Fails : ℕ → ℕ → Bytes → Socket → Type 0
Fails fuel n data' sock = (left : Socket) × (recv_loop fuel n data' sock ≡ (ok none, left))

module _ (n : ℕ) (data' : Bytes) (sock : Socket) where
  loop_done : (fuel : ℕ) → length data' ≡ n → recv_loop fuel n data' sock ≡ (ok (some data'), sock)
  unfolding recv_loop
  loop_done zero h = ground arith
  loop_done (suc fuel) h = ground arith

  module _ (fuel : ℕ) (open_loop : length data' < n) where
    loop_nothing :
        Ends (n - length data') sock
        → (left : Socket) × (recv_loop (suc fuel) n data' sock ≡ (ok none, left))
    unfolding recv_loop
    loop_nothing e = elim e.got [
      | inl g ↦ (e.left, ground (arith, g))
      | inr g ↦ (e.left, ground (arith, g))
    ]

    loop_more :
        (b : Brings (n - length data') sock)
        → recv_loop (suc fuel) n data' sock ≡ recv_loop fuel n (data' ++ b.head ∷ b.tail) b.left
    unfolding recv_loop
    loop_more b = ground (arith, b.got)

length-of_append :
    (data' rest : Bytes) (n : ℕ) → rest ≡ [] → n ≤ length (data' ++ rest) → n ≤ length data'
length-of_append data' rest n e h = omega (arith, ap length e, length-append data' rest)

-- The stream is cut at the first bytes that recv brought.
stream_cut :
    (n : ℕ) (data' : Bytes) (sock : Socket) (b : Brings (n - length data') sock)
    → (data' ++ b.head ∷ b.tail) ++ bytes_of b.left ≡ data' ++ bytes_of sock
stream_cut n data' sock b =
    append_assoc data' (b.head ∷ b.tail) (bytes_of b.left) ∙ ap (λ x. data' ++ x) (sym b.next)

module _ (fuel n : ℕ) (data' : Bytes) (sock : Socket) (more : length data' < n)
    (b : Brings (n - length data') sock) where
  carry_on : Reads fuel n (data' ++ b.head ∷ b.tail) b.left → Reads (suc fuel) n data' sock
  carry_on (left, run, rest) = (
    left,
    loop_more n data' sock fuel more b
        ∙ run
        ∙ ap (λ x. (ok (some (take n x)), left)) (stream_cut n data' sock b),
    rest ∙ ap (drop n) (stream_cut n data' sock b),
  )

  carry_stop : Fails fuel n (data' ++ b.head ∷ b.tail) b.left → Fails (suc fuel) n data' sock
  carry_stop (left, run) = (left, loop_more n data' sock fuel more b ∙ run)

  within : length (data' ++ b.head ∷ b.tail) ≤ n
  within = omega (arith, length-append data' (b.head ∷ b.tail), b.few)

  farther : n ≤ length data' + suc fuel → n ≤ length (data' ++ b.head ∷ b.tail) + fuel
  farther h = omega (arith, length-append data' (b.head ∷ b.tail))

-- From here on the loop reads what it still needs, if that comes.
loop_enough :
    (fuel n : ℕ) (data' : Bytes) (sock : Socket)
    → length data' ≤ n
    → n ≤ length data' + fuel
    → n ≤ length (data' ++ bytes_of sock)
    → Reads fuel n data' sock
loop_enough zero n data' sock small enough there =
    let e : length data' ≡ n = omega arith in
    let (t, d) = take-length-append n data' (bytes_of sock) e in
    (sock, loop_done n data' sock zero e ∙ ap (λ x. (ok (some x), sock)) (sym t), sym d)
loop_enough (suc fuel) n data' sock small enough there = elim (dec_lt (length data') n) [
  | no full ↦
      let e : length data' ≡ n = omega arith in
      let (t, d) = take-length-append n data' (bytes_of sock) e in
      (sock, loop_done n data' sock (suc fuel) e ∙ ap (λ x. (ok (some x), sock)) (sym t), sym d)
  | yes more ↦ elim (recv-cases (n - length data') sock (omega arith)) [
    | inl e ↦ absurd (omega (arith, length-of_append data' (bytes_of sock) n e.nothing there))
    | inr b ↦ carry_on fuel n data' sock more b (
        loop_enough fuel n (data' ++ b.head ∷ b.tail) b.left (within fuel n data' sock more b)
          (farther fuel n data' sock more b enough)
          (subst (λ x. n ≤ length x) (sym (stream_cut n data' sock b)) there))
  ]
]

loop_short :
    (fuel n : ℕ) (data' : Bytes) (sock : Socket)
    → n ≤ length data' + fuel
    → length (data' ++ bytes_of sock) < n
    → Fails fuel n data' sock
loop_short zero n data' sock enough short =
    absurd (omega (arith, length-append data' (bytes_of sock)))
loop_short (suc fuel) n data' sock enough short =
    let more : length data' < n = omega (arith, length-append data' (bytes_of sock)) in
    elim (recv-cases (n - length data') sock (omega arith)) [
      | inl e ↦ loop_nothing n data' sock fuel more e
      | inr b ↦ carry_stop fuel n data' sock more b (
          loop_short fuel n (data' ++ b.head ∷ b.tail) b.left
            (farther fuel n data' sock more b enough)
            (subst (λ x. length x < n) (sym (stream_cut n data' sock b)) short))
    ]

-- However the bytes of a connection are cut into packets, recv_exact ends: it returns the next n
-- bytes and leaves the ones behind them, if there are so many before the connection closes or
-- fails, and None if not.
pub recv_exact_lem :
    (n : ℕ) (sock : Socket)
    → ((n ≤ length (bytes_of sock))
        × (left : Socket) × (recv_exact n sock ≡ (ok (some (take n (bytes_of sock))), left))
        × (bytes_of left ≡ drop n (bytes_of sock)))
      ⊎ ((length (bytes_of sock) < n) × (left : Socket) × (recv_exact n sock ≡ (ok none, left)))
unfolding recv_exact
recv_exact_lem n sock = elim (dec_lt (length (bytes_of sock)) n) [
  | yes short ↦
      let (left, run) = loop_short n n [] sock (omega arith) short in inr (short, left, run)
  | no long ↦
      let (left, run, rest) = loop_enough n n [] sock (omega arith) (omega arith) (omega arith) in
      inl (omega arith, left, run, rest)
]

-- Bytes that the stream starts with are read as they are.
pub recv_exact-prefix :
    (p rest : Bytes) (sock : Socket)
    → bytes_of sock ≡ p ++ rest
    → (left : Socket) × (recv_exact (length p) sock ≡ (ok (some p), left)) × (bytes_of left ≡ rest)
recv_exact-prefix p rest sock e = elim (recv_exact_lem (length p) sock) [
  | inl (_, left, run, behind) ↦
      let (t, d) = take-length-append (length p) p rest refl in
      (
        left,
        run ∙ ap (λ x. (ok (some x), left)) (ap (take (length p)) e ∙ t),
        behind ∙ ap (drop (length p)) e ∙ d,
      )
  | inr (short, left, run) ↦ absurd (omega (arith, ap length e, length-append p rest))
]
