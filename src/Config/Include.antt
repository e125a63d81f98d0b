-- ===== src/Config/Include.antt =====
-- crates/ngxora-config/src/include.rs. The file system is a parameter, a path a text. `resolving`
-- holds the files that are being read: a path is put in before its file is resolved and taken out
-- behind it, so the calls of one list of nodes all see the same set.
pub mod Expansion
pub mod Confinement
use ngxora.Base.{
  ℕ, zero, suc, ◌-◌, Bool, true, false, not, List, [], ◌∷◌, ◌++◌, Option, none, some, Text, text_eq,
  codes, any, if◌then◌else◌,
}
use ngxora.Outcome.{Outcome, success, failure, ◌>>=◌, ◌>>◌, ok_or, ensure}
use ngxora.Config.Ast.{Node, directive, block, Nodes, nil, cons}
use ngxora.Config.Parser.{ParseError, Result, ok, err, parse_config}

-- What `std::fs` and `std::path` give.
pub record FileSystem : Type 0 where
  pub canonicalize : Text → Option Text
  pub read_to_string : Text → Option Text
  pub is_absolute : Text → Bool
  pub join : Text → Text → Text
  pub starts_with : Text → Text → Bool
  pub parent : Text → Option Text

pub data IncludeError : Type 0 where
  too_deep bad_root : IncludeError
  unresolved escapes cycle unreadable : Text → IncludeError
  syntax : ParseError → IncludeError

abbrev pub include_directive : Text
include_directive = codes "include"

abbrev pub max_include_depth : ℕ
max_include_depth = 16

abbrev pub append : Nodes → Nodes → Nodes
append nil ms = ms
append (cons n ns) ms = cons n (append ns ms)

-- `map_err` of a `ParseError`
abbrev pub parsed : Result Nodes → Outcome IncludeError Nodes
parsed (ok ns) = success ns
parsed (err e) = failure (syntax e)

abbrev pub or_else : Text → Option Text → Text
or_else fallback none = fallback
or_else fallback (some it) = it

abbrev pub holds : Text → List Text → Bool
holds path = any (text_eq path)

-- `collect_includes`; the texts of the files that it lists are empty.
mutual
  pub collect_includes : Nodes → List Text → List Text
  collect_includes nil out = out
  collect_includes (cons n ns) out = collect_node n (collect_includes ns out)

  collect_node : Node → List Text → List Text
  collect_node (directive name args) out =
      if text_eq name include_directive then args ++ out else out
  collect_node (block name args children) out = collect_includes children out

module _ (fs : FileSystem) (root_dir : Text) where
  unfoldable pub resolve_include_path : Text → Text → Outcome IncludeError Text
  resolve_include_path current_dir raw_path =
      let path = if fs.is_absolute raw_path then raw_path else fs.join current_dir raw_path in
      do
        canonical ← ok_or (unresolved path) (fs.canonicalize path)
        ensure (fs.starts_with canonical root_dir) (escapes canonical)
        success canonical

  module _ (nested : Text → List Text → Nodes → Outcome IncludeError Nodes) where
    -- The loop over the arguments of one `include`; `nested` is the call one level down.
    unfoldable pub include_paths : Text → List Text → List Text → Outcome IncludeError Nodes
    include_paths current_dir resolving [] = success nil
    include_paths current_dir resolving (path ∷ paths) = do
      include_path ← resolve_include_path current_dir path
      ensure (not (holds include_path resolving)) (cycle include_path)
      text ← ok_or (unreadable include_path) (fs.read_to_string include_path)
      items ← parsed (parse_config text)
      out ← nested (or_else root_dir (fs.parent include_path)) (include_path ∷ resolving) items
      rest ← include_paths current_dir resolving paths
      success (append out rest)

    unfoldable mutual
      pub resolve_list : Text → List Text → Nodes → Outcome IncludeError Nodes
      resolve_list current_dir resolving nil = success nil
      resolve_list current_dir resolving (cons n ns) = do
        out ← resolve_node current_dir resolving n
        rest ← resolve_list current_dir resolving ns
        success (append out rest)

      pub resolve_node : Text → List Text → Node → Outcome IncludeError Nodes
      resolve_node current_dir resolving (directive name args) =
          if text_eq name include_directive
          then include_paths current_dir resolving args
          else success (cons (directive name args) nil)
      resolve_node current_dir resolving (block name args children) = do
        children' ← resolve_list current_dir resolving children
        success (cons (block name args children') nil)

  -- The first argument counts the depths that are left; at none of them `depth` is past the maximum.
  unfoldable pub resolve_nodes : ℕ → Text → List Text → Nodes → Outcome IncludeError Nodes
  resolve_nodes zero current_dir resolving nodes = failure too_deep
  resolve_nodes (suc left) current_dir resolving nodes =
      resolve_list (resolve_nodes left) current_dir resolving nodes

-- `IncludeResolver::resolve`
unfoldable pub resolve : FileSystem → Text → Nodes → Outcome IncludeError Nodes
unfolding resolve_nodes
resolve fs dir items = do
  root_dir ← ok_or bad_root (fs.canonicalize dir)
  resolve_nodes fs root_dir (suc max_include_depth) root_dir [] items
