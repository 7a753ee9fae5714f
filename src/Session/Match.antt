-- ===== src/Session/Match.antt =====
-- internal/upstreamsession/store.go, `matchBranchExtension`: whether a conversation extends a
-- branch, and how many of its messages the branch holds already.
pub mod Prefix
pub mod Sound
use deep_seek_web_to_api.Prelude.{
  ℕ, zero, suc, ◌+◌, ◌-◌, Bool, true, false, not, ◌&&◌, ◌||◌, Option, none, some, List, [], ◌∷◌,
  ◌++◌, length, take, drop, ltb, leb, ◌==◌, if◌then◌else◌,
}
use deep_seek_web_to_api.Prelude.Text.{String, str_eq}
use deep_seek_web_to_api.Session.Message.{Value, value_eq, message_role}

pub data Mode : Type 0 where
  strict_prefix sliding_suffix : Mode

-- The loop of `messagePrefixEqual` over the expected messages.
unfoldable pub starts_with : List Value → List Value → Bool
starts_with current [] = true
starts_with [] (e ∷ es) = false
starts_with (c ∷ cs) (e ∷ es) = value_eq c e && starts_with cs es

unfoldable pub message_prefix_equal : List Value → List Value → ℕ → Bool
message_prefix_equal current expected offset =
    leb (offset + length expected) (length current) && starts_with (drop offset current) expected

unfoldable pub raw_messages_equal : List Value → List Value → Bool
raw_messages_equal left right = (length left == length right) && starts_with left right

-- canonicalMessageRole, which reads an object only
unfoldable pub leading_system_count : List Value → ℕ
leading_system_count [] = 0
leading_system_count (m ∷ ms) =
    let rest = leading_system_count ms in if str_eq (message_role m) "system" then suc rest else 0

unfoldable pub contain_role : List Value → String → Bool
contain_role [] role = false
contain_role (m ∷ ms) role = str_eq (message_role m) role || contain_role ms role

-- One overlap of the sliding window: the end of the stored conversation, with a user message in
-- the part before the last response, is the start of the current one.
unfoldable pub overlaps : List Value → List Value → ℕ → ℕ → Bool
overlaps conversation stored response_len overlap =
    let start = length stored - overlap in
    let request_end = length stored - response_len in
    raw_messages_equal (take overlap conversation) (drop start stored)
    && contain_role (take (request_end - start) (drop start stored)) "user"

-- for overlap := maxOverlap; overlap >= minimumOverlap; overlap--
unfoldable pub largest_overlap : List Value → List Value → ℕ → ℕ → Option ℕ
largest_overlap conversation stored response_len zero = none
largest_overlap conversation stored response_len (suc overlap) =
    let smaller = largest_overlap conversation stored response_len overlap in
    if ltb (suc overlap) (response_len + 1)
    then none
    else if overlaps conversation stored response_len (suc overlap)
    then some (suc overlap)
    else smaller

-- Where the current conversation is empty the source's bound is -1, and here 0: no round is made.
abbrev pub max_overlap : List Value → List Value → ℕ
max_overlap conversation stored =
    if ltb (length conversation - 1) (length stored) then length conversation - 1 else length stored

unfoldable pub strict_match : List Value → List Value → List Value → Bool
strict_match current request response =
    ltb (length request + length response) (length current)
    && message_prefix_equal current request 0
    && message_prefix_equal current response (length request)

unfoldable pub sliding_match : List Value → List Value → List Value → Option ℕ
sliding_match current request response =
    let system = leading_system_count request in
    let stored = drop system request ++ response in
    let conversation = drop system current in
    if (system == leading_system_count current)
      && message_prefix_equal current (take system request) 0
    then elim (largest_overlap conversation stored (length response)
        (max_overlap conversation stored)) [ none ↦ none | some overlap ↦ some (system + overlap) ]
    else none

unfoldable pub match_branch_extension : List Value → List Value → List Value → Option (ℕ × Mode)
match_branch_extension current request response =
    if strict_match current request response
    then some (length request + length response, strict_prefix)
    else elim (sliding_match current request response) [
      | none ↦ none
      | some consumed ↦ some (consumed, sliding_suffix)
    ]
