-- ===== src/Messages.antt =====
-- pkg/types/types.go: `EncodeToByte` and `DecodeFromByte`, the frames in which the controller
-- manager and the configurators send messages over a connection. encoding/json is a parameter.
pub mod Laws
mod Tests
use fa_st_gshare.Common.{
  ℕ, zero, suc, ◌==◌, Bool, true, false, Option, none, some, List, [], ◌∷◌, ◌++◌, if◌then◌else◌,
}

abbrev pub Bytes : Type 0
Bytes = List ℕ

-- `'\n'`
abbrev pub newline : ℕ
newline = 10

infixl 5 ◌>>=◌
abbrev ◌>>=◌ {ℓ κ} : {A : Type ℓ} {B : Type κ} → Option A → (A → Option B) → Option B
none >>= f = none
some a >>= f = f a

-- `json.Marshal` and `json.Unmarshal` for a type of messages; `none` is an error.
pub record Json (A : Type 0) : Type 0 where
  pub marshal : A → Option Bytes
  pub unmarshal : Bytes → Option A

-- `data[:len(data)-1]` if the last byte is the delimiter.
unfoldable pub drop_delimiter : Bytes → Bytes
drop_delimiter [] = []
drop_delimiter (x ∷ []) = if x == newline then [] else x ∷ []
drop_delimiter (x ∷ y ∷ rest) = x ∷ drop_delimiter (y ∷ rest)

-- `ReadBytes('\n')`: the bytes up to the first delimiter and with it, and what follows; `none` when
-- the input ends before.
unfoldable pub read_bytes : Bytes → Option (Bytes × Bytes)
read_bytes [] = none
read_bytes (x ∷ rest) =
    let later = read_bytes rest in
    if x == newline then some (x ∷ [], rest) else (do found ← later; some (x ∷ found.0, found.1))

module _ {A : Type 0} (json : Json A) where
  -- `EncodeToByte`
  unfoldable pub encode_to_byte : A → Option Bytes
  encode_to_byte v = do buf ← json.marshal v; some (buf ++ newline ∷ [])

  -- `DecodeFromByte`
  unfoldable pub decode_from_byte : Bytes → Option A
  decode_from_byte bytes = json.unmarshal (drop_delimiter bytes)

  -- What a connection carries after the messages were written one after the other.
  unfoldable pub send_all : List A → Option Bytes
  send_all [] = some []
  send_all (v ∷ vs) = do frame ← encode_to_byte v; rest ← send_all vs; some (frame ++ rest)

  -- Reading a message, as the controller manager reads the hello message, and a number of
  -- messages, with what is left of the input.
  unfoldable pub receive : Bytes → Option (A × Bytes)
  receive input = do found ← read_bytes input; v ← decode_from_byte found.0; some (v, found.1)

  unfoldable pub receive_many : ℕ → Bytes → Option (List A × Bytes)
  receive_many zero input = some ([], input)
  receive_many (suc n) input = do
    first ← receive input
    more ← receive_many n first.1
    some (first.0 ∷ more.0, more.1)
