-- ===== src/Config/Include/Confinement.antt =====
-- Includes read files below the root only.
use mathlib.Core.Path.{fun_ext}
use ngxora.Base.{
  ℕ, zero, suc, ◌≡◌, refl, ◌∙◌, ap, true, List, [], ◌∷◌, Option, some, Text, if◌then◌else◌,
  Bool-cases, Option-cases, inl, inr,
}
use ngxora.Outcome.{Outcome}
use ngxora.Config.Ast.{Node, directive, block, Nodes, nil, cons}
use ngxora.Config.Include.{
  FileSystem, IncludeError, resolve_include_path, include_paths, resolve_list, resolve_node,
  resolve_nodes, resolve,
}

-- The file system with other contents of its files.
abbrev pub with_contents : (Text → Option Text) → FileSystem → FileSystem
with_contents contents fs = record fs { read_to_string = contents }

module _ (fs : FileSystem) (contents : Text → Option Text) (root_dir : Text)
    (agree : (path : Text)
      → fs.starts_with path root_dir ≡ true
      → fs.read_to_string path ≡ contents path) where
  module _ (nested : Text → List Text → Nodes → Outcome IncludeError Nodes) where
    include_paths-confined :
        (dir : Text) (resolving paths : List Text)
        → include_paths fs root_dir nested dir resolving paths
          ≡ include_paths (with_contents contents fs) root_dir nested dir resolving paths
    unfolding include_paths resolve_include_path
    include_paths-confined dir resolving [] = refl
    include_paths-confined dir resolving (raw ∷ paths) =
        let ih = include_paths-confined dir resolving paths in
        elim (Option-cases
          (fs.canonicalize (if fs.is_absolute raw then raw else fs.join dir raw))) [
            | inl e ↦ rw (e, include_paths)
            | inr (path, e) ↦ elim (Bool-cases (fs.starts_with path root_dir)) [
              | inl q ↦ rw (e, include_paths) (rw q (rw (agree path q) (rw ih)))
              | inr q ↦ rw (e, include_paths) (rw q)
            ]
          ]

    mutual
      unfolding resolve_list resolve_node

      resolve_list-confined :
          (dir : Text) (resolving : List Text) (ns : Nodes)
          → resolve_list fs root_dir nested dir resolving ns
            ≡ resolve_list (with_contents contents fs) root_dir nested dir resolving ns
      resolve_list-confined dir resolving nil = refl
      resolve_list-confined dir resolving (cons n ns) =
          rw (resolve_node-confined dir resolving n, resolve_list-confined dir resolving ns)

      resolve_node-confined :
          (dir : Text) (resolving : List Text) (n : Node)
          → resolve_node fs root_dir nested dir resolving n
            ≡ resolve_node (with_contents contents fs) root_dir nested dir resolving n
      resolve_node-confined dir resolving (directive name args) =
          rw (include_paths-confined dir resolving args)
      resolve_node-confined dir resolving (block name args children) =
          rw (resolve_list-confined dir resolving children)

  resolve_nodes-confined :
      (left : ℕ) (dir : Text) (resolving : List Text) (ns : Nodes)
      → resolve_nodes fs root_dir left dir resolving ns
        ≡ resolve_nodes (with_contents contents fs) root_dir left dir resolving ns
  unfolding resolve_nodes
  resolve_nodes-confined zero dir resolving ns = refl
  resolve_nodes-confined (suc left) dir resolving ns =
      let same : resolve_nodes fs root_dir left
          ≡ resolve_nodes (with_contents contents fs) root_dir left =
        fun_ext (λ d. fun_ext (λ r. fun_ext (λ n. resolve_nodes-confined left d r n))) in
      resolve_list-confined (resolve_nodes fs root_dir left) dir resolving ns
      ∙ ap (λ nested. resolve_list (with_contents contents fs) root_dir nested dir resolving ns)
          same

-- The files that an `include` reads are below the root: with other contents of the files outside of it,
-- the result of `resolve` is the same. The condition is that the two contents agree on each path
-- that starts with the canonical root.
pub resolve_confined :
    (fs : FileSystem) (contents : Text → Option Text) (dir root_dir : Text) (items : Nodes)
    → fs.canonicalize dir ≡ some root_dir
    → ((path : Text) → fs.starts_with path root_dir ≡ true → fs.read_to_string path ≡ contents path)
    → resolve fs dir items ≡ resolve (with_contents contents fs) dir items
unfolding resolve
resolve_confined fs contents dir root_dir items e agree =
    rw e (resolve_nodes-confined fs contents root_dir agree 17 root_dir [] items)
