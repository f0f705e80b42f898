-- ===== src/Server/Text.antt =====
-- server_utils.c, `pack_topic_to_tcp_msg`: the text that a subscriber finds in the message.
use tcp_client_server.Prelude.{
  ℕ, zero, suc, ◌+◌, ◌/◌, ◌%◌, ◌^◌, ◌<◌, ◌≤◌, ◌≡◌, ap, List, [], ◌∷◌, ◌++◌, ◌==◌, Bool-cases, drop,
  length, take-append, arith, Text, IsText, c_string, inl, inr,
}
use tcp_client_server.Prelude.Int.{ℤ, pos, negsuc}
use tcp_client_server.Server.Printing.{digits, decimal, overwrite}

-- Digits in front of a text are read as one number with it.
abbrev Digit : ℕ → Type 0
Digit b = (48 ≤ b) × (b ≤ 57)

-- The text of a number: digits, at least one, and not more than the places.
abbrev IsNumber : Text → Type 0
IsNumber [] = Unit
IsNumber (b ∷ bs) = Digit b × IsNumber bs

digits-IsNumber : (places n : ℕ) (acc : Text) → IsNumber acc → IsNumber (digits places n acc)
unfolding digits
digits-IsNumber zero n acc h = h
digits-IsNumber (suc places) n acc h = elim (Bool-cases (n / 10 == 0)) [
  | inl e ↦ rw e ((omega arith, omega arith), h)
  | inr e ↦
      rw e (digits-IsNumber places (n / 10) ((48 + n % 10) ∷ acc) ((omega arith, omega arith), h))
]

length-digits : (places n : ℕ) (acc : Text) → length (digits places n acc) ≤ places + length acc
unfolding digits
length-digits zero n acc = omega arith
length-digits (suc places) n acc = elim (Bool-cases (n / 10 == 0)) [
  | inl e ↦ rw e (omega arith)
  | inr e ↦ rw e (omega (arith, length-digits places (n / 10) ((48 + n % 10) ∷ acc)))
]

IsNumber-IsText : (s : Text) → IsNumber s → IsText s
IsNumber-IsText [] h = tt
IsNumber-IsText (b ∷ bs) h = ((λ e. absurd (omega arith)), IsNumber-IsText bs h.1)

-- An `int32_t`, as a range of the numbers that it may be.
abbrev pub IsInt32 : ℤ → Type 0
IsInt32 (pos n) = n < 2 ^ 31
IsInt32 (negsuc n) = n < 2 ^ 31

pub decimal-IsText : (n : ℕ) → IsText (decimal n)
unfolding decimal
decimal-IsText n = IsNumber-IsText (decimal n) (digits-IsNumber 10 n [] tt)

pub length-decimal : (n : ℕ) → length (decimal n) ≤ 10
unfolding decimal
length-decimal n = omega (arith, length-digits 10 n [])

pub IsText-append : (s t : Text) (b : ℕ) → IsText s → 0 < b → IsText t → IsText (s ++ b ∷ t)
IsText-append [] t b h p k = ((λ e. absurd (omega arith)), k)
IsText-append (c ∷ cs) t b h p k = (h.0, IsText-append cs t b h.1 p k)

pub c_string-IsText : (s : List ℕ) → IsText (c_string s)
unfolding c_string
c_string-IsText [] = tt
c_string-IsText (b ∷ bs) = elim (Bool-cases (b == 0)) [
  | inl e ↦ rw e tt
  | inr e ↦ rw e ((λ z. ground arith), c_string-IsText bs)
]

pub length-c_string : (s : List ℕ) → length (c_string s) ≤ length s
unfolding c_string
length-c_string [] = omega arith
length-c_string (b ∷ bs) = elim (Bool-cases (b == 0)) [
  | inl e ↦ rw e (omega arith)
  | inr e ↦ rw e (omega (arith, length-c_string bs))
]

-- Bytes stored right behind a start leave it.
pub overwrite-append :
    (start rest bytes : List ℕ) (n : ℕ)
    → length start ≡ n
    → overwrite (start ++ rest) n bytes
      ≡ (start ++ bytes) ++ drop (n + length bytes) (start ++ rest)
unfolding overwrite
overwrite-append start rest bytes n e =
    ap (λ xs. (xs ++ bytes) ++ drop (n + length bytes) (start ++ rest)) (take-append start rest n e)
