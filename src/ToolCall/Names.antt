-- ===== src/ToolCall/Names.antt =====
-- internal/toolcall/toolcalls_scan.go: the names of tags and what may stand before them. A search reads
-- the text and, at the same positions, the text in lower case, which need not be of the same length.
pub mod Steps
use deep_seek_web_to_api.Prelude.{
  ℕ, zero, suc, ◌+◌, Bool, true, false, ◌&&◌, ◌||◌, not, Option, none, some, List, [], ◌∷◌, length,
  drop, get_or, ltb, leb, ◌==◌, if◌then◌else◌,
}
use deep_seek_web_to_api.Prelude.Text.{String, codes}
use deep_seek_web_to_api.Sieve.Bytes.{Bytes, has_prefix}

-- text[i:]; none stands for the panic where i is out of range.
unfoldable pub tail : Bytes → ℕ → Option Bytes
tail text i = if leb i (length text) then some (drop i text) else none

abbrev hanzi_tool_calls : Bytes
hanzi_tool_calls =
    0xe5 ∷ 0xb7 ∷ 0xa5 ∷ 0xe5 ∷ 0x85 ∷ 0xb7 ∷ 0xe8 ∷ 0xb0 ∷ 0x83 ∷ 0xe7 ∷ 0x94 ∷ 0xa8 ∷ []

abbrev hanzi_invoke : Bytes
hanzi_invoke = 0xe8 ∷ 0xb0 ∷ 0x83 ∷ 0xe7 ∷ 0x94 ∷ 0xa8 ∷ []

abbrev hanzi_parameter : Bytes
hanzi_parameter = 0xe5 ∷ 0x8f ∷ 0x82 ∷ 0xe6 ∷ 0x95 ∷ 0xb0 ∷ []

-- Each name with its bytes.
abbrev pub tool_markup_names : List (String × Bytes)
tool_markup_names =
    ("tool_calls", codes "tool_calls")
    ∷ ("tool-calls", codes "tool-calls")
    ∷ ("tool_call", codes "tool_call")
    ∷ ("tool-call", codes "tool-call")
    ∷ ("invoke", codes "invoke")
    ∷ ("parameter", codes "parameter")
    ∷ ("工具调用", hanzi_tool_calls)
    ∷ ("调用", hanzi_invoke)
    ∷ ("参数", hanzi_parameter)
    ∷ []

abbrev pub tool_markup_token_artifacts : List Bytes
tool_markup_token_artifacts =
    (0xe2 ∷ 0x80 ∷ 0x8b ∷ [])
    ∷ (0xe2 ∷ 0x80 ∷ 0x8c ∷ [])
    ∷ (0xe2 ∷ 0x80 ∷ 0x8d ∷ [])
    ∷ (0xe2 ∷ 0x81 ∷ 0xa0 ∷ [])
    ∷ (0xef ∷ 0xbb ∷ 0xbf ∷ [])
    ∷ (0xe2 ∷ 0x96 ∷ 0x81 ∷ [])
    ∷ []

-- The wide pipe, U+FF5C.
abbrev pub wide_pipe : Bytes
wide_pipe = 0xef ∷ 0xbd ∷ 0x9c ∷ []

-- The first name that the text starts with, and its length.
unfoldable pub match_name : List (String × Bytes) → Bytes → Option (String × ℕ)
match_name [] text = none
match_name ((name, bytes) ∷ names) text =
    let later = match_name names text in
    if has_prefix bytes text then some (name, length bytes) else later

-- Whether the text starts with a name, or may become one.
unfoldable pub has_name_prefix : List (String × Bytes) → Bytes → Bool
has_name_prefix [] text = false
has_name_prefix ((name, bytes) ∷ names) text =
    has_prefix bytes text || has_prefix text bytes || has_name_prefix names text

unfoldable pub consume_pipe : Bytes → ℕ → Option ℕ
consume_pipe text idx =
    if not (ltb idx (length text))
    then none
    else if get_or text idx 0 == b'|'
    then some (idx + 1)
    else if has_prefix wide_pipe (drop idx text)
    then some (idx + 3)
    else none

abbrev is_separator : ℕ → Bool
is_separator c = (c == 0x20) || (c == 0x9) || (c == 0xd) || (c == 0xa)

unfoldable pub consume_space_separator : Bytes → ℕ → Option ℕ
consume_space_separator text idx =
    if ltb idx (length text) && is_separator (get_or text idx 0) then some (idx + 1) else none

-- One of the artifacts at the start of the text.
unfoldable pub match_artifact : List Bytes → Bytes → Option ℕ
match_artifact [] text = none
match_artifact (artifact ∷ rest) text =
    let later = match_artifact rest text in
    if has_prefix artifact text then some (length artifact) else later

unfoldable pub consume_token_artifact : Bytes → ℕ → Option ℕ
consume_token_artifact text idx =
    if not (ltb idx (length text))
    then none
    else elim (match_artifact tool_markup_token_artifacts (drop idx text)) [
      | none ↦ none
      | some n ↦ some (idx + n)
    ]

-- The outer option is the panic, here and below.
unfoldable pub consume_hyphen_separator : Bytes → Bytes → ℕ → Option (Option ℕ)
consume_hyphen_separator lower text idx =
    if not (ltb idx (length text))
    then some none
    else if not ((get_or text idx 0 == b'-') || (get_or text idx 0 == b'_'))
    then some none
    else elim (tail lower (idx + 1)) [
      | none ↦ none
      | some rest ↦
          if has_name_prefix tool_markup_names rest then some (some (idx + 1)) else some none
    ]

-- The last ways to go on: a separator before a name, or an artifact.
unfoldable pub consume_last : Bytes → Bytes → ℕ → Bool → Option (Option ℕ)
consume_last lower text idx allow = elim (consume_hyphen_separator lower text idx) [
  | none ↦ none
  | some (some next) ↦ some (some next)
  | some none ↦ if allow then some (consume_token_artifact text idx) else some none
]

-- `consumeToolMarkupNamePrefixOnce`
unfoldable pub consume_once : Bytes → Bytes → ℕ → Bool → Option (Option ℕ)
consume_once lower text idx allow = elim (consume_pipe text idx) [
  | some next ↦ some (some next)
  | none ↦ elim (consume_space_separator text idx) [
    | some next ↦ some (some next)
    | none ↦ elim (tail lower idx) [
      | none ↦ none
      | some rest ↦
          if has_prefix (codes "{:dsml}") rest
          then some (some (idx + 7))
          else if has_prefix (codes "dsml") rest
          then some (some (idx + 4))
          else consume_last lower text idx allow
    ]
  ]
]

-- `consumeToolMarkupNamePrefix`
unfoldable pub consume_name_prefix : ℕ → Bytes → Bytes → ℕ → Bool → Option (ℕ × Bool)
consume_name_prefix zero lower text idx dsml_like = some (idx, dsml_like)
consume_name_prefix (suc fuel) lower text idx dsml_like =
    elim (consume_once lower text idx dsml_like) [
      | none ↦ none
      | some none ↦ some (idx, dsml_like)
      | some (some next) ↦ consume_name_prefix fuel lower text next true
    ]

-- Rounds enough for the positions of both texts.
abbrev pub name_rounds : Bytes → Bytes → ℕ
name_rounds lower text = suc (length lower + length text)
