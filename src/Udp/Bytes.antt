-- ===== src/Udp/Bytes.antt =====
-- The bytes of a datagram: the field of the topic, the type, and numbers in the order of the network.
use tcp_client_server.Prelude.{
  ℕ, zero, suc, ◌-◌, ◌/◌, ◌%◌, ◌^◌, ◌≤◌, ◌<◌, ◌≡◌, refl, ap, List, [], ◌∷◌, ◌++◌, some, arith,
  get_elem?, take, drop, length, length-append, Text, IsText, c_string,
}
use tcp_client_server.Udp.{ntohl_at}

-- `n` bytes of 0.
abbrev pub zeros : ℕ → List ℕ
zeros zero = []
zeros (suc n) = 0 ∷ zeros n

-- A topic of at most 50 bytes in a field of 50 bytes, the byte of the type, and the data.
abbrev pub packet : Text → ℕ → List ℕ → List ℕ
packet t ty payload = (t ++ zeros (50 - length t)) ++ ty ∷ payload

-- A number below 2 ^ 32 in the byte order of the network.
abbrev pub htonl_bytes : ℕ → List ℕ
htonl_bytes n = n / 2 ^ 24 ∷ n / 2 ^ 16 % 256 ∷ n / 256 % 256 ∷ n % 256 ∷ []

pub ntohl-htonl : (n : ℕ) (rest : List ℕ) → n < 2 ^ 32 → ntohl_at (htonl_bytes n ++ rest) ≡ n
ntohl-htonl n rest h = omega arith

pub c_string-take :
    (n : ℕ) (s : Text) (rest : List ℕ)
    → IsText s
    → length s < n
    → c_string (take n (s ++ 0 ∷ rest)) ≡ s
unfolding c_string
c_string-take zero s rest h l = absurd (omega arith)
c_string-take (suc n) [] rest h l = refl
c_string-take (suc n) (b ∷ bs) rest h l = ground (arith, c_string-take n bs rest h.1)

module _ {ℓ} {A : Type ℓ} where
  pub drop-append_one :
      (n : ℕ) (xs : List A) (y : A) (ys : List A) → length xs ≡ n → drop (suc n) (xs ++ y ∷ ys) ≡ ys
  drop-append_one zero [] y ys e = refl
  drop-append_one (suc n) [] y ys e = absurd (omega arith)
  drop-append_one zero (x ∷ xs) y ys e = absurd (omega arith)
  drop-append_one (suc n) (x ∷ xs) y ys e = drop-append_one n xs y ys (omega arith)

  pub take-append_one :
      (n : ℕ) (xs : List A) (y : A) (ys : List A)
      → length xs ≡ n
      → take (suc n) (xs ++ y ∷ ys) ≡ xs ++ y ∷ []
  take-append_one zero [] y ys e = refl
  take-append_one (suc n) [] y ys e = absurd (omega arith)
  take-append_one zero (x ∷ xs) y ys e = absurd (omega arith)
  take-append_one (suc n) (x ∷ xs) y ys e = ap (◌∷◌ x) (take-append_one n xs y ys (omega arith))

  pub get_elem?-append :
      (n : ℕ) (xs : List A) (y : A) (ys : List A)
      → length xs ≡ n
      → get_elem? (xs ++ y ∷ ys) n ≡ some y
  get_elem?-append zero [] y ys e = refl
  get_elem?-append (suc n) [] y ys e = absurd (omega arith)
  get_elem?-append zero (x ∷ xs) y ys e = absurd (omega arith)
  get_elem?-append (suc n) (x ∷ xs) y ys e = get_elem?-append n xs y ys (omega arith)

pub length-zeros : (n : ℕ) → length (zeros n) ≡ n
length-zeros zero = refl
length-zeros (suc n) = ap suc (length-zeros n)

pub length-topic_field : (t : Text) → length t ≤ 50 → length (t ++ zeros (50 - length t)) ≡ 50
length-topic_field t h =
    omega (arith, length-append t (zeros (50 - length t)), length-zeros (50 - length t))
