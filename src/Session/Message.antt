-- ===== src/Session/Message.antt =====
-- The messages of internal/upstreamsession/store.go. A message is JSON that was decoded before, so
-- that `json.Marshal` and `json.Unmarshal` do not fail on it and lose nothing: a canonical message
-- (`json.RawMessage`) is the value that its bytes stand for. An object is its fields in the order
-- of their keys, in which `json.Marshal` writes them.
use Prim.Native.Char.{code}
use deep_seek_web_to_api.Prelude.{◌==◌, Bool, true, false, ◌&&◌, ◌||◌, List, [], ◌∷◌, if◌then◌else◌}
use deep_seek_web_to_api.Prelude.Text.{String, concat, str_eq, trim_space, to_lower}

mutual
  pub data Value : Type 0 where
    null : Value
    boolean : Bool → Value
    -- A number, by its text.
    number : String → Value
    text : String → Value
    array : Items → Value
    object : Fields → Value

  pub data Items : Type 0 where
    nil : Items
    cons : Value → Items → Items

  pub data Fields : Type 0 where
    end : Fields
    field : String → Value → Fields → Fields

-- stringField
unfoldable pub string_field : Value → String
string_field (text s) = s
string_field _ = ""

-- item[key], where a missing key reads as null.
unfoldable pub get_field : String → Fields → Value
get_field key end = null
get_field key (field k v rest) = if str_eq k key then v else get_field key rest

-- delete(item, key)
unfoldable pub delete_field : String → Fields → Fields
delete_field key end = end
delete_field key (field k v rest) =
    let kept = delete_field key rest in if str_eq k key then kept else field k v kept

-- item[key] = v for a key that is there.
unfoldable pub replace_field : String → Value → Fields → Fields
replace_field key w end = end
replace_field key w (field k v rest) =
    let later = replace_field key w rest in
    if str_eq k key then field k w later else field k v later

abbrev is_reasoning_type : String → Bool
is_reasoning_type t = str_eq t "reasoning" || str_eq t "thinking" || str_eq t "redacted_thinking"

-- blockMap["type"], for a block that is an object.
unfoldable pub block_type : Value → String
block_type (object fields) = to_lower (trim_space (string_field (get_field "type" fields)))
block_type _ = ""

unfoldable pub visible_blocks : Items → Items
visible_blocks nil = nil
visible_blocks (cons block blocks) =
    let rest = visible_blocks blocks in
    if is_reasoning_type (block_type block) then rest else cons block rest

unfoldable pub visible_content : Value → Value
visible_content (array blocks) = array (visible_blocks blocks)
visible_content content = content

unfoldable pub without_reasoning : Fields → Fields
without_reasoning item =
    let bare = delete_field "thought_signature" (
      delete_field "thinking" (delete_field "reasoning" (delete_field "reasoning_content" item))) in
    replace_field "content" (visible_content (get_field "content" bare)) bare

-- The role of an object; a message that is none has no role.
unfoldable pub message_role : Value → String
message_role (object item) = to_lower (trim_space (string_field (get_field "role" item)))
message_role _ = ""

-- A long s (U+017F) is an s to `strings.EqualFold`, and no other letter beyond ASCII is one of
-- "assistant".
abbrev fold_s : String → String
fold_s String.[] = String.[]
fold_s (String.◌∷◌ c s) = if code c == 0x17f then concat "s" (fold_s s) else String.◌∷◌ c (fold_s s)

-- strings.EqualFold(role, "assistant")
unfoldable pub is_assistant : String → Bool
is_assistant role = str_eq (to_lower (fold_s role)) "assistant"

-- Reasoning is taken out of an assistant's message.
unfoldable pub canonical_message : Value → Value
canonical_message (object item) =
    if is_assistant (trim_space (string_field (get_field "role" item)))
    then object (without_reasoning item)
    else object item
canonical_message v = v

unfoldable pub canonical_messages : List Value → List Value
canonical_messages [] = []
canonical_messages (m ∷ ms) = canonical_message m ∷ canonical_messages ms

abbrev bool_eq : Bool → Bool → Bool
bool_eq true b = b
bool_eq false true = false
bool_eq false false = true

-- string(a) == string(b)
unfoldable mutual
  pub value_eq : Value → Value → Bool
  value_eq null null = true
  value_eq (boolean a) (boolean b) = bool_eq a b
  value_eq (number a) (number b) = str_eq a b
  value_eq (text a) (text b) = str_eq a b
  value_eq (array a) (array b) = items_eq a b
  value_eq (object a) (object b) = fields_eq a b
  value_eq _ _ = false

  pub items_eq : Items → Items → Bool
  items_eq nil nil = true
  items_eq (cons a xs) (cons b ys) = value_eq a b && items_eq xs ys
  items_eq _ _ = false

  pub fields_eq : Fields → Fields → Bool
  fields_eq end end = true
  fields_eq (field k a xs) (field l b ys) = str_eq k l && (value_eq a b && fields_eq xs ys)
  fields_eq _ _ = false
