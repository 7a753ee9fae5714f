-- ===== src/Sieve/Fence.antt =====
-- internal/toolstream/tool_sieve_state.go: whether the text of a stream is inside a code fence. A
-- fence of n backticks is n, one of n tildes is -n; the top of the stack is the head of the list.
pub mod Notes
use deep_seek_web_to_api.Prelude.{
  ℕ, zero, suc, ◌+◌, Bool, true, false, ◌&&◌, ◌||◌, not, List, [], ◌∷◌, ltb, leb, ◌==◌,
  if◌then◌else◌,
}
use deep_seek_web_to_api.Prelude.Int.{ℤ, pos, negsuc}
use deep_seek_web_to_api.Sieve.Bytes.{Bytes, is_nil, only_space}

pub record Fence : Type 0 where
  pub stack : List ℤ
  pub pending_ticks : ℕ
  pub pending_tildes : ℕ
  pub line_start : Bool

-- The state of a new stream.
abbrev pub no_fence : Fence
no_fence = record { stack = []; pending_ticks = 0; pending_tildes = 0; line_start = true }

abbrev magnitude : ℤ → ℕ
magnitude (pos n) = n
magnitude (negsuc n) = suc n

-- top > 0 && marker > 0 || top < 0 && marker < 0
abbrev same_type : ℤ → ℤ → Bool
same_type (pos (suc m)) (pos (suc n)) = true
same_type (negsuc m) (negsuc n) = true
same_type _ _ = false

abbrev push_or_pop : List ℤ → ℤ → List ℤ
push_or_pop [] marker = marker ∷ []
push_or_pop (top ∷ rest) marker =
    if not (same_type top marker)
    then marker ∷ top ∷ rest
    else if leb (magnitude top) (magnitude marker)
    then rest
    else marker ∷ top ∷ rest

unfoldable pub apply_fence_marker : List ℤ → ℤ → List ℤ
apply_fence_marker stack (pos zero) = stack
apply_fence_marker stack marker = push_or_pop stack marker

abbrev tilde_marker : ℕ → ℤ
tilde_marker zero = pos 0
tilde_marker (suc n) = negsuc n

unfoldable pub flush_ticks : Fence → Fence
flush_ticks f =
    if ltb 0 f.pending_ticks
    then record {
      stack =
          if f.line_start && leb 3 f.pending_ticks
          then apply_fence_marker f.stack (pos f.pending_ticks)
          else f.stack;
      pending_ticks = 0;
      pending_tildes = f.pending_tildes;
      line_start = false;
    }
    else f

unfoldable pub flush_tildes : Fence → Fence
flush_tildes f =
    if ltb 0 f.pending_tildes
    then record {
      stack =
          if f.line_start && leb 3 f.pending_tildes
          then apply_fence_marker f.stack (tilde_marker f.pending_tildes)
          else f.stack;
      pending_ticks = f.pending_ticks;
      pending_tildes = 0;
      line_start = false;
    }
    else f

-- `flushPending`
unfoldable pub flush_pending : Fence → Fence
flush_pending f = flush_tildes (flush_ticks f)

-- The bytes other than the two that make fences, behind the flush.
abbrev plain_byte : Fence → ℕ → Fence
plain_byte f ch =
    if (ch == 0xa) || (ch == 0xd)
    then record f { line_start = true }
    else if ((ch == 0x20) || (ch == 0x9)) && f.line_start
    then f
    else record f { line_start = false }

abbrev more_ticks : Fence → Fence
more_ticks f = record f { pending_ticks = f.pending_ticks + 1 }

abbrev more_tildes : Fence → Fence
more_tildes f = record f { pending_tildes = f.pending_tildes + 1 }

-- One round of the loop.
unfoldable pub next_byte : Fence → ℕ → Fence
next_byte f ch =
    if ch == b'`'
    then more_ticks (if ltb 0 f.pending_tildes then flush_pending f else f)
    else if ch == b'~'
    then more_tildes (if ltb 0 f.pending_ticks then flush_pending f else f)
    else plain_byte (flush_pending f) ch

unfoldable pub simulate : Fence → Bytes → Fence
simulate f [] = f
simulate f (ch ∷ text) = simulate (next_byte f ch) text

unfoldable pub inside_code_fence : Fence → Bytes → Bool
inside_code_fence f text = not (is_nil (simulate f text).stack)

-- `noteText` and `updateCodeFenceState`: text of nothing but space is passed over.
unfoldable pub note_text : Fence → Bytes → Fence
note_text f content = if only_space content then f else simulate f content
