-- ===== src/Decision/Texts.antt =====
-- What the checkpoints use of Python's texts, and the store's exceptions. The methods of `str`, `len`
-- and the regular expressions stand outside, and so does the validation of a JSON context.
use tiktok_b2b_bot_mirror.Prelude.{
  ℕ, String, Bool, not, ◌||◌, Option, Result, ok, raise_if, ◌>>◌, ltb,
}

pub record Texts : Type 0 where
  pub strip : String → String
  pub lower : String → String
  pub size : String → ℕ
  pub is_option_key : String → Bool  -- _OPTION_KEY_PATTERN.fullmatch
  pub is_code : String → Bool  -- _CODE_PATTERN.fullmatch
  pub is_sensitive : String → Bool  -- _SENSITIVE_VALUE_PATTERN.search
  pub safe_context : String → Option String  -- _safe_context
  pub validate_context : String → Option String  -- the context as it is stored

-- PipelineLiveValidationError and CheckpointConflictError with their messages, and an IntegrityError.
pub data LiveError : Type 0 where
  invalid conflict : String → LiveError
  taken_id : ℕ → LiveError

module _ (texts : Texts) where
  unfoldable pub clean_code : ℕ → String → Result LiveError String
  clean_code maximum value = do
    let normalized = texts.lower (texts.strip value)
    raise_if (ltb maximum (texts.size normalized) || not (texts.is_code normalized))
        (invalid "the code has an invalid format")
    ok normalized

  -- `_validate_json_tree` at a text.
  unfoldable pub validate_text : String → Result LiveError (Unit {0})
  validate_text text = do
    raise_if (ltb 2000 (texts.size text)) (invalid "live payload text is too long")
    raise_if (texts.is_sensitive text) (invalid "live payload contains prohibited values")
    ok tt
