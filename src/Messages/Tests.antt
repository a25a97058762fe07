-- ===== src/Messages/Tests.antt =====
-- Heartbeats as messages: `json` writes an alive one as `1` and another one as `0`.
use fa_st_gshare.Common.{◌≡◌, ◌==◌, subst, refl, Bool, true, false, Option, none, some, [], ◌∷◌}
use fa_st_gshare.Messages.{Bytes, Json, encode_to_byte, send_all, receive_many}
use fa_st_gshare.Messages.Laws.{no_newline, IsFaithful, receive_many-send_all}

same_text : (a b : Bytes) → ◌≡◌ {A = Option Bytes} (some a) (some b) → a ≡ b
same_text a b e = cc

abbrev text_of : Bool → Bytes
text_of true = 49 ∷ []
text_of false = 48 ∷ []

abbrev value_of : Bytes → Option Bool
value_of [] = none
value_of (x ∷ rest) = some (x == 49)

abbrev json : Json Bool
json = record { marshal = λ b. some (text_of b); unmarshal = value_of }

json-back : (v : Bool) → value_of (text_of v) ≡ some v
json-back true = refl
json-back false = refl

json-one_line : (v : Bool) → no_newline (text_of v) ≡ true
unfolding no_newline
json-one_line true = refl
json-one_line false = refl

json-IsFaithful : IsFaithful json
json-IsFaithful = record {
  back = λ v b e. subst (λ k. value_of k ≡ some v) (same_text (text_of v) b e) (json-back v);
  one_line =
      λ v b e. subst (λ k. no_newline k ≡ true) (same_text (text_of v) b e) (json-one_line v);
}

sends : send_all json (true ∷ false ∷ []) ≡ some (49 ∷ 10 ∷ 48 ∷ 10 ∷ [])
unfolding send_all encode_to_byte
sends = refl

receive_many-send_all_example :
    receive_many json 2 (49 ∷ 10 ∷ 48 ∷ 10 ∷ 7 ∷ []) ≡ some (true ∷ false ∷ [], 7 ∷ [])
receive_many-send_all_example =
    receive_many-send_all json json-IsFaithful (true ∷ false ∷ []) (7 ∷ []) sends
