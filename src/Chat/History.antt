-- ===== src/Chat/History.antt =====
-- `_build_messages_from_history`: the rows of a conversation as messages for the API.
pub mod Groups
use factorial.Prelude.{
  String, not, ◌&&◌, Option, none, some, List, [], ◌∷◌, ◌++◌, str_eq, if◌then◌else◌,
}
use factorial.Model.Json.{Json, Dict, Items, str, arr, obj, nil, cons, end, entry}
use factorial.Agent.Conversation.{Message, given}
use factorial.Chat.Rows.{MessageRow}

-- A block of a message; `plain` is a text that stands in the list as it is.
pub data HistoryBlock : Type 0 where
  plain : String → HistoryBlock
  use_block : String → String → Dict → HistoryBlock
  result_block : String → String → HistoryBlock

pub data Content : Type 0 where
  whole : String → Content
  blocks : List HistoryBlock → Content

pub record ApiMessage : Type 0 where
  pub role : String
  pub content : Content

abbrev pub or_empty : Option String → String
or_empty none = ""
or_empty (some s) = s

abbrev pub or_end : Option Dict → Dict
or_end none = end
or_end (some d) = d

-- The role and the block of a row that is no result.
abbrev pub spoken_block : Option String → MessageRow → HistoryBlock
spoken_block none row = plain row.content
spoken_block (some name) row =
    if not (str_eq name "") && str_eq row.role "assistant"
    then use_block (or_empty row.tool_use_id) name (or_end row.tool_input)
    else plain row.content

abbrev pub block_of : MessageRow → HistoryBlock
block_of row =
    if row.is_tool_result
    then result_block (or_empty row.tool_use_id) row.content
    else spoken_block row.tool_name row

abbrev pub role_of : MessageRow → String
role_of row = if row.is_tool_result then "user" else row.role

-- The content of a flushed group.
abbrev pub content_of : List HistoryBlock → Content
content_of (plain text ∷ []) = whole text
content_of bs = blocks bs

-- `_flush`: no role or no block gives no message.
abbrev pub flush : String → List HistoryBlock → List ApiMessage
flush role [] = []
flush role (b ∷ bs) =
    if str_eq role "" then [] else record { role = role; content = content_of (b ∷ bs) } ∷ []

-- The loop, with the role and the blocks of the current group; no role is the empty text here, which
-- `_flush` treats alike.
unfoldable pub group : String → List HistoryBlock → List MessageRow → List ApiMessage
group role bs [] = flush role bs
group role bs (row ∷ rows) =
    let joined = group role (bs ++ block_of row ∷ []) rows in
    let started = group (role_of row) (block_of row ∷ []) rows in
    if str_eq (role_of row) role then joined else flush role bs ++ started

unfoldable pub build_messages_from_history : List MessageRow → List ApiMessage
unfolding group
build_messages_from_history rows = group "" [] rows

block_json : HistoryBlock → Json
block_json (plain text) = str text
block_json (use_block id name input) = obj (
    entry "type" (str "tool_use")
      (entry "id" (str id) (entry "name" (str name) (entry "input" (obj input) end))))
block_json (result_block id text) = obj (
    entry "type" (str "tool_result")
      (entry "tool_use_id" (str id) (entry "content" (str text) end)))

blocks_json : List HistoryBlock → Items
unfolding block_json
blocks_json [] = nil
blocks_json (b ∷ bs) = cons (block_json b) (blocks_json bs)

content_json : Content → Json
unfolding blocks_json
content_json (whole text) = str text
content_json (blocks bs) = arr (blocks_json bs)

-- The dict that the API is sent.
unfoldable pub to_api : ApiMessage → Message
unfolding content_json
to_api m = given (obj (entry "role" (str m.role) (entry "content" (content_json m.content) end)))
