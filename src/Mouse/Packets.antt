-- ===== src/Mouse/Packets.antt =====
-- The packets of the mouse's bytes, and what they say.
use c4_os.Prelude.{
  ℕ, zero, suc, ◌/◌, ◌%◌, ◌^◌, ◌<◌, ◌≡◌, refl, ap, sym, ◌∙◌, arith, ◌||◌, ◌==◌, leb, ◌*◌,
  if◌then◌else◌, none, some, List, [], ◌∷◌, ◌++◌, append_assoc, add32, sub32, Bool-cases, inl, inr,
}
use c4_os.Mouse.{
  Event, moved, decode, dispatch, Buffer, empty, take_byte, drain, Interrupt, interrupts,
}

-- The messages for a sequence of bytes, three by three.
unfoldable pub packets : List ℕ → List ℕ → List (ℕ × Event)
packets clients (a ∷ b ∷ c ∷ rest) = dispatch clients a b c ++ packets clients rest
packets clients _ = []

-- The bytes of the mouse's interrupts.
unfoldable pub stream : List Interrupt → List ℕ
stream [] = []
stream (now ∷ rest) = let later = stream rest in if now.is_mouse then now.bytes ++ later else later

-- The bytes that wait for the rest of their packet.
abbrev waiting : (ℕ → ℕ) → ℕ → List ℕ
waiting things zero = []
waiting things (suc zero) = things 0 ∷ []
waiting things (suc (suc more)) = things 0 ∷ things 1 ∷ []

drain-append :
    (clients : List ℕ) (s : Buffer) (xs ys : List ℕ)
    → drain clients s (xs ++ ys) ≡ (
      (drain clients s xs).0 ++ (drain clients (drain clients s xs).1 ys).0,
      (drain clients (drain clients s xs).1 ys).1,
    )
unfolding drain
drain-append clients s [] ys = refl
drain-append clients s (x ∷ xs) ys =
    let (sent, next) = take_byte clients s x in
    let (later, last) = drain clients next xs in
    let (end, final) = drain clients last ys in
    ap (λ (p : List (ℕ × Event) × Buffer). (sent ++ p.0, p.1)) (drain-append clients next xs ys)
    ∙ ap (λ (out : List (ℕ × Event)). (out, final)) (sym (append_assoc sent later end))

drain-packets :
    (clients : List ℕ) (things : ℕ → ℕ) (counter : ℕ) (xs : List ℕ)
    → counter < 3
    → (drain clients (record { things = things; counter = counter }) xs).0
      ≡ packets clients (waiting things counter ++ xs)
unfolding drain packets take_byte
drain-packets clients things zero [] below = refl
drain-packets clients things (suc zero) [] below = refl
drain-packets clients things (suc (suc more)) [] below = refl
drain-packets clients things zero (x ∷ xs) below =
    drain-packets clients (λ i. if i == 0 then x else things i) 1 xs (omega arith)
drain-packets clients things (suc zero) (x ∷ xs) below =
    drain-packets clients (λ i. if i == 1 then x else things i) 2 xs (omega arith)
drain-packets clients things (suc (suc zero)) (x ∷ xs) below =
    let filled : ℕ → ℕ = λ i. if i == 2 then x else things i in
    ap (λ out. dispatch clients (things 0) (things 1) x ++ out)
      (drain-packets clients filled 0 xs (omega arith))
drain-packets clients things (suc (suc (suc more))) (x ∷ xs) below = absurd (omega arith)

interrupts-stream :
    (clients : List ℕ) (s : Buffer) (all : List Interrupt)
    → interrupts clients s all ≡ drain clients s (stream all)
unfolding interrupts stream drain
interrupts-stream clients s [] = refl
interrupts-stream clients s (now ∷ rest) = elim (Bool-cases now.is_mouse) [
  | inl e ↦
      let (sent, next) = drain clients s now.bytes in
      rw e (
        ap (λ (p : List (ℕ × Event) × Buffer). (sent ++ p.0, p.1))
          (interrupts-stream clients next rest)
        ∙ sym (drain-append clients s now.bytes (stream rest)))
  | inr e ↦ rw e (interrupts-stream clients s rest)
]

-- However the mouse's bytes fall on its interrupts, and whatever interrupts of other devices come
-- between, the messages sent are those of the bytes taken three by three, in order.
pub interrupts-packets :
    (clients : List ℕ) (all : List Interrupt)
    → (interrupts clients empty all).0 ≡ packets clients (stream all)
interrupts-packets clients all =
    ap (λ (p : List (ℕ × Event) × Buffer). p.0) (interrupts-stream clients empty all)
    ∙ drain-packets clients (λ i. 0) 0 (stream all) (omega arith)

-- The 9 bits of a coordinate in two's complement, as a word.
abbrev pub nine_bits : ℕ → ℕ → ℕ
nine_bits sign b = sub32 b (sign * 256)

moved-nine_bits :
    (sign b : ℕ) → sign < 2 → b < 256 → moved (sign == 1) b ≡ add32 (nine_bits sign b) sign
moved-nine_bits sign b hs hb = ground (arith, hs, hb)

-- For a packet of bytes, the event is none when an overflow bit is set, and otherwise has the buttons
-- and, as each coordinate, what its 9 bits say in two's complement when that is not negative, and one
-- more when it is.
pub decode-nine_bits :
    (a b c : ℕ)
    → a < 256
    → b < 256
    → c < 256
    → decode a b c ≡ (
        if leb 64 a
        then none
        else some (record {
          flags = a % 2 ^ 3;
          x = add32 (nine_bits (a / 2 ^ 4 % 2) b) (a / 2 ^ 4 % 2);
          y = add32 (nine_bits (a / 2 ^ 5 % 2) c) (a / 2 ^ 5 % 2);
        }))
unfolding decode
decode-nine_bits a b c ha hb hc =
    let over : (a / 2 ^ 6 % 2 == 1 || a / 2 ^ 7 % 2 == 1) ≡ leb 64 a = ground (arith, ha) in
    let one = moved-nine_bits (a / 2 ^ 4 % 2) b (omega arith) hb in
    let two = moved-nine_bits (a / 2 ^ 5 % 2) c (omega arith) hc in rw (over, one, two) refl
