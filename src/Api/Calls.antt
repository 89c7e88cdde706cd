-- ===== src/Api/Calls.antt =====
-- `parse`, `elaborate` and `elaborate_simplified` of systemrdl_api.cpp on a text. The parser that
-- ANTLR generates and what an exception says are parameters. `none` is a call that needs more
-- nesting of bodies than it is given.
pub mod Success
use systemrdl_toolkit.Base.{
  ℕ, List, [], ◌∷◌, ◌++◌, Bytes, codes, Option, none, some, to_string, is_empty, if◌then◌else◌,
}
use systemrdl_toolkit.Elab.Model.{Node, ElaborationError}
use systemrdl_toolkit.Elab.Tree.{Body}
use systemrdl_toolkit.Elab.State.{Outcome, done, thrown, too_deep}
use systemrdl_toolkit.Elab.Walk.{elaborate}
use systemrdl_toolkit.Api.{Result, success, error}
use systemrdl_toolkit.Api.Json.{
  JsonLibrary, ParseTree, convert_ast_to_json, convert_elaborated_node_to_json,
}
use systemrdl_toolkit.Api.Simplified.{convert_elaborated_node_to_simplified_json}

-- what is reported to `CapturingErrorListener::syntaxError`
pub record SyntaxError : Type 0 where
  pub line : ℕ
  pub column : ℕ
  pub msg : Bytes

-- The generated parser on a text: what the exception says when the text is refused, as one that is
-- no UTF-8 is; the errors in the order of the reports; and the tree, as the rules build it and as
-- the elaborator reads it.
pub record ParserLibrary : Type 0 where
  pub refused : Bytes → Option Bytes
  pub syntax_errors : Bytes → List SyntaxError
  pub tree : Bytes → ParseTree
  pub root : Bytes → Body

-- what the exceptions say: of the elaboration, and of a text that is no UTF-8
pub record ExceptionTexts : Type 0 where
  pub elaboration_what : Bytes
  pub dump_what : Bytes

-- one call of `syntaxError`
unfoldable pub syntax_error : Bytes → SyntaxError → Bytes
unfolding to_string
syntax_error buffer e =
    (if is_empty buffer then [] else buffer ++ b'\n' ∷ [])
    ++ (codes "line "
        ++ (to_string e.line ++ (codes ":" ++ (to_string e.column ++ (codes " " ++ e.msg)))))

unfoldable pub joined : Bytes → List SyntaxError → Bytes
unfolding syntax_error
joined buffer [] = buffer
joined buffer (e ∷ errors) = joined (syntax_error buffer e) errors

unfoldable pub error_details : List ElaborationError → Bytes
error_details [] = []
error_details (e ∷ errors) = codes "  " ++ (e.message ++ (codes "\n" ++ error_details errors))

module _ (json : JsonLibrary) (parser : ParserLibrary) (texts : ExceptionTexts) where
  open json use {Json, null, array, string, set, push_back, dump}

  -- the JSON of a call, with two spaces for each level
  unfoldable pub dumped : Bytes → Json → Result
  dumped prefix value = elim (dump 2 value) [
    | some s ↦ success s
    | none ↦ error (prefix ++ texts.dump_what)
  ]

  -- an object with a format, a version and an array of one value
  unfoldable pub wrapped : Bytes → Bytes → Json → Json
  wrapped format key value =
      set key (push_back array value)
        (set (codes "version") (string (codes "1.0")) (set (codes "format") (string format) null))

  -- `result` where the parser takes the text and reports nothing
  unfoldable pub with_syntax : Bytes → Bytes → Option Result → Option Result
  unfolding joined
  with_syntax prefix rdl_content result = elim (parser.refused rdl_content) [
    | some what ↦ some (error (prefix ++ what))
    | none ↦
        let messages = joined [] (parser.syntax_errors rdl_content) in
        if is_empty messages
        then result
        else some (error (codes "Syntax errors found during parsing:\n" ++ messages))
  ]

  unfoldable pub parse : Bytes → Option Result
  unfolding with_syntax dumped wrapped convert_ast_to_json
  parse rdl_content = with_syntax (codes "Parse error: ") rdl_content (
      some (
        dumped (codes "Parse error: ") (
          wrapped (codes "SystemRDL_AST") (codes "ast")
            (convert_ast_to_json json (parser.tree rdl_content)))))

  -- the errors of the elaborator, or its model as `convert` writes it
  unfoldable pub report_model : (Node → Json) → Outcome (Option Node) → Option Result
  unfolding error_details dumped
  report_model convert (done model st) =
      if is_empty st.errors
      then elim model [
        | none ↦ some (error (codes "Failed to elaborate design"))
        | some top ↦ some (dumped (codes "Elaboration error: ") (convert top))
      ]
      else some (error (codes "Elaboration errors:\n" ++ error_details st.errors))
  report_model convert thrown = some (error (codes "Elaboration error: " ++ texts.elaboration_what))
  report_model convert too_deep = none

  unfoldable pub elaborate_content : ℕ → (Node → Json) → Bytes → Option Result
  unfolding with_syntax report_model elaborate
  elaborate_content depth convert rdl_content =
      with_syntax (codes "Elaboration error: ") rdl_content
        (report_model convert (elaborate depth (some (parser.root rdl_content)) []))

  -- `elaborate` and `elaborate_simplified`, of a new elaborator
  unfoldable pub elaborate_rdl : ℕ → Bytes → Option Result
  unfolding elaborate_content wrapped convert_elaborated_node_to_json
  elaborate_rdl depth = elaborate_content depth λ top.
      wrapped (codes "SystemRDL_ElaboratedModel") (codes "model")
        (convert_elaborated_node_to_json json top)

  unfoldable pub elaborate_simplified : ℕ → Bytes → Option Result
  unfolding elaborate_content convert_elaborated_node_to_simplified_json
  elaborate_simplified depth =
      elaborate_content depth (convert_elaborated_node_to_simplified_json json)
