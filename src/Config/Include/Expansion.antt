-- ===== src/Config/Include/Expansion.antt =====
-- What is left of a configuration whose includes are resolved.
use ngxora.Base.{
  ℕ, zero, suc, ◌≡◌, refl, ap, subst, false, not, List, [], ◌∷◌, Text, text_eq, Bool-cases, inl,
  inr,
}
use ngxora.Outcome.{Outcome, success, ◌>>=◌, ok_or, >>=-success, >>-success}
use ngxora.Config.Ast.{Node, directive, block, Nodes, nil, cons}
use ngxora.Config.Parser.{parse_config}
use ngxora.Config.Include.{
  FileSystem, IncludeError, include_directive, append, parsed, or_else, holds, unreadable, cycle,
  bad_root, resolve_include_path, include_paths, resolve_list, resolve_node, resolve_nodes, resolve,
}

-- No directive of the tree is an `include`.
unfoldable mutual
  pub IsExpanded : Nodes → Type 0
  IsExpanded nil = Unit
  IsExpanded (cons n ns) = IsExpandedNode n × IsExpanded ns

  pub IsExpandedNode : Node → Type 0
  IsExpandedNode (directive name args) = text_eq name include_directive ≡ false
  IsExpandedNode (block name args children) = IsExpanded children

append-IsExpanded : (ns ms : Nodes) → IsExpanded ns → IsExpanded ms → IsExpanded (append ns ms)
unfolding IsExpanded
append-IsExpanded nil ms h k = k
append-IsExpanded (cons n ns) ms (h, hs) k = (h, append-IsExpanded ns ms hs k)

nil-IsExpanded :
    (out : Nodes)
    → ◌≡◌ {A = Outcome IncludeError Nodes} (success nil) (success out)
    → IsExpanded out
unfolding IsExpanded
nil-IsExpanded nil h = tt
nil-IsExpanded (cons n ns) h = cc

-- Two expanded parts make an expanded whole.
appended-IsExpanded :
    (ns : Nodes) (rest : Outcome IncludeError Nodes) (out : Nodes)
    → IsExpanded ns
    → ((ms : Nodes) → rest ≡ success ms → IsExpanded ms)
    → (rest >>= λ ms. success (append ns ms)) ≡ success out
    → IsExpanded out
appended-IsExpanded ns rest out h k e =
    let (ms, f, g) = >>=-success rest (λ ms. success (append ns ms)) e in
    let same : append ns ms ≡ out = cc in subst IsExpanded same (append-IsExpanded ns ms h (k ms f))

module _ (fs : FileSystem) (root_dir : Text) where
  module _ (nested : Text → List Text → Nodes → Outcome IncludeError Nodes)
      (expands : (dir : Text) (resolving : List Text) (ns out : Nodes)
        → nested dir resolving ns ≡ success out
        → IsExpanded out) where
    include_paths-IsExpanded :
        (dir : Text) (resolving paths : List Text) (out : Nodes)
        → include_paths fs root_dir nested dir resolving paths ≡ success out
        → IsExpanded out
    unfolding include_paths
    include_paths-IsExpanded dir resolving [] out h = nil-IsExpanded out h
    include_paths-IsExpanded dir resolving (raw ∷ paths) out h =
        let (path, _, h₁) = >>=-success (resolve_include_path fs root_dir dir raw) _ h in
        let (_, h₂) = >>-success (not (holds path resolving)) (cycle path) _ h₁ in
        let (text, _, h₃) = >>=-success (ok_or (unreadable path) (fs.read_to_string path)) _ h₂ in
        let (items, _, h₄) = >>=-success (parsed (parse_config text)) _ h₃ in
        let (ns, e, h₅) =
          >>=-success (nested (or_else root_dir (fs.parent path)) (path ∷ resolving) items) _ h₄ in
        appended-IsExpanded ns (include_paths fs root_dir nested dir resolving paths) out
          (expands (or_else root_dir (fs.parent path)) (path ∷ resolving) items ns e)
          (include_paths-IsExpanded dir resolving paths) h₅

    mutual
      unfolding resolve_list resolve_node IsExpanded

      resolve_list-IsExpanded :
          (dir : Text) (resolving : List Text) (ns out : Nodes)
          → resolve_list fs root_dir nested dir resolving ns ≡ success out
          → IsExpanded out
      resolve_list-IsExpanded dir resolving nil out h = nil-IsExpanded out h
      resolve_list-IsExpanded dir resolving (cons n ns) out h =
          let (ms, e, h') = >>=-success (resolve_node fs root_dir nested dir resolving n) _ h in
          appended-IsExpanded ms (resolve_list fs root_dir nested dir resolving ns) out
            (resolve_node-IsExpanded dir resolving n ms e)
            (resolve_list-IsExpanded dir resolving ns) h'

      resolve_node-IsExpanded :
          (dir : Text) (resolving : List Text) (n : Node) (out : Nodes)
          → resolve_node fs root_dir nested dir resolving n ≡ success out
          → IsExpanded out
      resolve_node-IsExpanded dir resolving (directive name args) out h =
          elim (Bool-cases (text_eq name include_directive)) [
            | inl q ↦ include_paths-IsExpanded dir resolving args out (rw q at h)
            | inr q ↦
                let e : cons (directive name args) nil ≡ out = let h' = rw q at h in cc in
                subst IsExpanded e (q, tt)
          ]
      resolve_node-IsExpanded dir resolving (block name args children) out h =
          let (children', e, h') =
            >>=-success (resolve_list fs root_dir nested dir resolving children) _ h in
          let same : cons (block name args children') nil ≡ out = cc in
          subst IsExpanded same (resolve_list-IsExpanded dir resolving children children' e, tt)

  resolve_nodes-IsExpanded :
      (left : ℕ) (dir : Text) (resolving : List Text) (ns out : Nodes)
      → resolve_nodes fs root_dir left dir resolving ns ≡ success out
      → IsExpanded out
  unfolding resolve_nodes
  resolve_nodes-IsExpanded zero dir resolving ns out h = cc
  resolve_nodes-IsExpanded (suc left) dir resolving ns out h =
      resolve_list-IsExpanded (resolve_nodes fs root_dir left) (resolve_nodes-IsExpanded left) dir
        resolving ns out h

-- A tree without includes resolves to itself.
append-nil : (ns : Nodes) → append ns nil ≡ ns
append-nil nil = refl
append-nil (cons n ns) = ap (cons n) (append-nil ns)

module _ (fs : FileSystem) (root_dir : Text)
    (nested : Text → List Text → Nodes → Outcome IncludeError Nodes) where
  mutual
    unfolding resolve_list resolve_node IsExpanded

    resolve_list-expanded :
        (dir : Text) (resolving : List Text) (ns : Nodes)
        → IsExpanded ns
        → resolve_list fs root_dir nested dir resolving ns ≡ success ns
    resolve_list-expanded dir resolving nil h = refl
    resolve_list-expanded dir resolving (cons n ns) (h, hs) =
        rw (resolve_node-expanded dir resolving n h, resolve_list-expanded dir resolving ns hs)

    resolve_node-expanded :
        (dir : Text) (resolving : List Text) (n : Node)
        → IsExpandedNode n
        → resolve_node fs root_dir nested dir resolving n ≡ success (cons n nil)
    resolve_node-expanded dir resolving (directive name args) h = rw h
    resolve_node-expanded dir resolving (block name args children) h =
        rw (resolve_list-expanded dir resolving children h)

-- Where `resolve` succeeds, no directive of its result is an `include`, at any depth of the blocks,
-- and resolving the result again gives the result.
pub resolve-IsExpanded :
    (fs : FileSystem) (dir : Text) (items out : Nodes)
    → resolve fs dir items ≡ success out
    → IsExpanded out × (resolve fs dir out ≡ success out)
unfolding resolve resolve_nodes
resolve-IsExpanded fs dir items out h =
    let (root_dir, e, h') = >>=-success (ok_or bad_root (fs.canonicalize dir)) _ h in
    let x = resolve_nodes-IsExpanded fs root_dir 17 root_dir [] items out h' in
    (x, rw e (resolve_list-expanded fs root_dir (resolve_nodes fs root_dir 16) root_dir [] out x))
