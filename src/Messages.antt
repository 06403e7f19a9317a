-- ===== src/Messages.antt =====
-- src/provider.rs: the messages of a conversation. V is the type of JSON values.
pub mod Pairing
use dtcoder_test.Prelude.{String, Bool, true, false, Option, none, some, List, [], ◌∷◌}
use dtcoder_test.Assembler.{ToolCall}

pub data Role : Type 0 where
  system user assistant tool : Role

abbrev pub is_tool : Role → Bool
is_tool tool = true
is_tool _ = false

abbrev pub is_user : Role → Bool
is_user user = true
is_user _ = false

pub record Message (V : Type 0) : Type 0 where
  pub role : Role
  pub content : Option String
  pub thinking : Option String
  pub calls : List (ToolCall V)
  pub tool_call_id : Option String
  pub name : Option String
  pub image_urls : List String

module _ {V : Type 0} where
  -- `Message::text`
  abbrev pub text : Role → String → Message V
  text role content = record {
    role = role;
    content = some content;
    thinking = none;
    calls = [];
    tool_call_id = none;
    name = none;
    image_urls = [];
  }

  abbrev pub tool_result : ToolCall V → String → Message V
  tool_result call content = record {
    role = tool;
    content = some content;
    thinking = none;
    calls = [];
    tool_call_id = some call.id;
    name = some call.name;
    image_urls = [];
  }

  abbrev pub assistant_with_thinking : String → Option String → Message V
  assistant_with_thinking content thinking = record {
    role = assistant;
    content = some content;
    thinking = thinking;
    calls = [];
    tool_call_id = none;
    name = none;
    image_urls = [];
  }

  -- `assistant_tool_calls` where there is no thinking.
  abbrev pub assistant_tool_calls_with_thinking : List (ToolCall V) → Option String → Message V
  assistant_tool_calls_with_thinking calls thinking = record {
    role = assistant;
    content = none;
    thinking = thinking;
    calls = calls;
    tool_call_id = none;
    name = none;
    image_urls = [];
  }
