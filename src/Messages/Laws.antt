-- ===== src/Messages/Laws.antt =====
-- Messages that are written to a connection are read back.
use fa_st_gshare.Common.{
  ◌==◌, ◌≡◌, ◌&&◌, not, Bool, true, Bool-cases, Option, none, some, List, [], ◌∷◌, ◌++◌, length,
  refl, sym, ap, ◌∙◌, arith, inl, inr,
}
use fa_st_gshare.Messages.{
  Bytes, newline, Json, ◌>>=◌, drop_delimiter, read_bytes, encode_to_byte, decode_from_byte,
  send_all, receive, receive_many,
}

-- No byte is the delimiter.
unfoldable pub no_newline : Bytes → Bool
no_newline [] = true
no_newline (x ∷ rest) = not (x == newline) && no_newline rest

-- What encoding/json documents of a type of messages: what is marshalled is unmarshalled again, and
-- the text has no line break.
pub record IsFaithful {A : Type 0} (json : Json A) : Type 0 where
  pub back : (v : A) (b : Bytes) → json.marshal v ≡ some b → json.unmarshal b ≡ some v
  pub one_line : (v : A) (b : Bytes) → json.marshal v ≡ some b → no_newline b ≡ true

drop_delimiter-framed : (b : Bytes) → drop_delimiter (b ++ newline ∷ []) ≡ b
unfolding drop_delimiter
drop_delimiter-framed [] = refl
drop_delimiter-framed (x ∷ []) = refl
drop_delimiter-framed (x ∷ y ∷ rest) = ap (λ k. x ∷ k) (drop_delimiter-framed (y ∷ rest))

read_bytes-framed :
    (b rest : Bytes)
    → no_newline b ≡ true
    → read_bytes ((b ++ newline ∷ []) ++ rest) ≡ some (b ++ newline ∷ [], rest)
unfolding read_bytes no_newline
read_bytes-framed [] rest h = refl
read_bytes-framed (x ∷ b) rest h = elim (Bool-cases (x == newline)) [
  | inl bad ↦ absurd (ground arith)
  | inr ok ↦ let later = read_bytes-framed b rest (ground arith) in rw (ok, read_bytes, later) refl
]

>>=-some {ℓ κ} :
    {A : Type ℓ} {B : Type κ} (m : Option A) (f : A → Option B) {b : B}
    → (m >>= f) ≡ some b
    → (a : A) × (m ≡ some a) × (f a ≡ some b)
>>=-some (some a) f h = (a, refl, h)
>>=-some none f h = cc

same_value {ℓ} : {A : Type ℓ} {a b : A} → ◌≡◌ {A = Option A} (some a) (some b) → a ≡ b
same_value e = cc

append_assoc {ℓ} : {A : Type ℓ} (xs ys zs : List A) → (xs ++ ys) ++ zs ≡ xs ++ (ys ++ zs)
append_assoc [] ys zs = refl
append_assoc (x ∷ xs) ys zs = ap (λ k. x ∷ k) (append_assoc xs ys zs)

module _ {A : Type 0} (json : Json A) (faithful : IsFaithful json) where
  receive-frame :
      (v : A) (b rest : Bytes)
      → json.marshal v ≡ some b
      → receive json ((b ++ newline ∷ []) ++ rest) ≡ some (v, rest)
  unfolding receive decode_from_byte
  receive-frame v b rest e =
      rw
        (
          read_bytes-framed b rest (faithful.one_line v b e),
          decode_from_byte,
          drop_delimiter-framed b,
          faithful.back v b e,
        )
        refl

  -- Messages that were written to a connection one after the other are read back one by one, in
  -- their order, and what follows them in the input is left, if encoding/json gives back what it
  -- was given and writes no line break.
  pub receive_many-send_all :
      (vs : List A) (rest : Bytes) {written : Bytes}
      → send_all json vs ≡ some written
      → receive_many json (length vs) (written ++ rest) ≡ some (vs, rest)
  unfolding send_all receive_many encode_to_byte
  receive_many-send_all [] rest e = rw (← same_value e) refl
  receive_many-send_all (v ∷ vs) rest {written = written} e =
      let (frame, encoded, e1) = >>=-some (encode_to_byte json v) _ e in
      let (b, marshalled, e2) = >>=-some (json.marshal v) _ encoded in
      let (tail, sent, e3) = >>=-some (send_all json vs) _ e1 in
      let whole : (b ++ newline ∷ []) ++ (tail ++ rest) ≡ written ++ rest =
        sym (append_assoc (b ++ newline ∷ []) tail rest)
        ∙ ap (λ k. k ++ rest) (ap (λ k. k ++ tail) (same_value e2) ∙ same_value e3) in
      rw (← whole, receive-frame v b (tail ++ rest) marshalled, receive_many-send_all vs rest sent)
        refl
