-- ===== src/Kernel/Opening.antt =====
-- internal/kernel/execution.go: validateLabel, addSubject and the payload of execution.created.
use Prim.Native.Char.{code}
use rebuno.Prelude.{
  Bool, Option, String, [], contains, false, leb, ltb, none, not, some, string_eq, true, ℕ, ℕ_eq,
  ◌&&◌, ◌==◌, ◌||◌, ◌∷◌,
}
use rebuno.Domain.Json.{Fields, RawMessage, end, field, field_if, json, num, obj, str, uuid}
use rebuno.Domain.Payload.{execution_status_text}
use rebuno.Domain.Records.{Execution, SpawnedBy, Time}
use rebuno.Identity.{byte_length}

-- unicode.IsSpace
abbrev is_space : ℕ → Bool
is_space c =
    (leb 9 c && leb c 13)
    || (contains (32 ∷ 133 ∷ 160 ∷ 5760 ∷ 8232 ∷ 8233 ∷ 8239 ∷ 8287 ∷ 12288 ∷ []) c
        || (leb 8192 c && leb c 8202))

unfoldable has_nul : String → Bool
has_nul String.[] = false
has_nul (String.◌∷◌ c text) = code c == 0 || has_nul text

unfoldable is_blank : String → Bool
is_blank String.[] = true
is_blank (String.◌∷◌ c text) = is_space (code c) && is_blank text

-- validateLabel refuses the text; a text of the model is valid UTF-8
unfoldable pub bad_label : String → Bool
unfolding byte_length has_nul is_blank contains
bad_label text = ltb 256 (byte_length text) || (has_nul text || (not (text == "") && is_blank text))

abbrev text_field_if : String → String → Fields → Fields
text_field_if name value rest = field_if (not (value == "")) name (str value) rest

abbrev spawned_field : Option SpawnedBy → Fields → Fields
spawned_field none rest = rest
spawned_field (some by) rest =
    field "spawned_by"
      (obj (field "execution_id" (uuid by.execution_id) (field "step_id" (str by.step_id) end)))
      rest

abbrev created_deadline : Option Time → Fields → Fields
created_deadline none rest = rest
created_deadline (some at) rest = field "deadline_at" (num at) rest

-- the payload of execution.created, with addSubject
unfoldable pub created_payload : Execution → RawMessage
created_payload exec = json (
    obj (
      text_field_if "created_by" exec.created_by (
        created_deadline exec.deadline_at (
          field "execution_id" (uuid exec.id) (
            text_field_if "on_behalf_of" exec.on_behalf_of (
              text_field_if "session" exec.session (
                spawned_field exec.spawned_by
                  (field "status" (str (execution_status_text exec.status)) end))))))))
