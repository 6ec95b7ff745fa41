-- ===== src/Utility/Response.antt =====
-- nla-utility-runtime.mjs: `contentText` and `parseUtilityResponse`. A payload is an object whose
-- fields are read as below; `trim` and the joining of parts are the platform's.
use next_level_agent.Base.{
  String, Bool, false, ◌||◌, Option, none, some, List, [], ◌∷◌, ◌==◌, if◌then◌else◌,
}
use next_level_agent.Base.Result.{Result, ok, err}

pub record Part : Type 0 where
  pub kind : String
  pub part_text : Option String

pub data Content : Type 0 where
  missing : Content
  plain : String → Content
  parts : List Part → Content

-- `payload.message` of Ollama, or `payload.choices[0].message` of the compatible interface.
pub record Message : Type 0 where
  pub content : Content
  pub thinking : Bool
  pub reasoning : Bool

pub record Payload : Type 0 where
  pub message : Option Message
  pub first_choice : Option Message

pub data ResponseError : Type 0 where
  reasoning_without_answer no_answer : ResponseError

abbrev texts : List Part → List String
texts [] = []
texts (p ∷ ps) =
    let rest = texts ps in
    if p.kind == "text" || p.kind == "output_text"
    then elim p.part_text [ none ↦ rest | some t ↦ t ∷ rest ]
    else rest

module _ (trim : String → String) (join_lines : List String → String) where
  unfoldable pub content_text : Content → String
  content_text missing = ""
  content_text (plain s) = trim s
  content_text (parts ps) = trim (join_lines (texts ps))

  abbrev content_of : Option Message → Content
  content_of none = missing
  content_of (some m) = m.content

  abbrev has_reasoning : Bool → Option Message → Bool
  has_reasoning native none = false
  has_reasoning native (some m) = if native then m.thinking else m.reasoning

  unfoldable pub parse_utility_response : Payload → String → Result ResponseError String
  unfolding content_text
  parse_utility_response payload api =
      let native = api == "native" in
      let message = if native then payload.message else payload.first_choice in
      let content = content_text (content_of message) in
      if content == ""
      then err (if has_reasoning native message then reasoning_without_answer else no_answer)
      else ok content
