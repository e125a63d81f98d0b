-- ===== src/Config/Parser/Complete.antt =====
-- Every token sequence that spells a syntax tree is parsed to that tree.
use ngxora.Base.{
  ℕ, zero, suc, ◌*◌, ◌<◌, Bool, true, false, List, [], ◌∷◌, ◌≡◌, ◌↔◌, refl, ◌⊎◌, inl, inr, arith,
  map, length, Text,
}
use ngxora.Config.Ast.{Node, directive, block, Nodes, nil, cons}
use ngxora.Config.Grammar.{
  Lex, word, opening, closing, ending, lex, words, flatten_node, flatten_nodes,
}
use ngxora.Config.Lexer.{Token}
use ngxora.Config.Parser.{
  Result, ok, take_args, expect_r_brace, end_block, end_stmt, push_item, parse_items, parse_stmt,
  parse_tokens,
}
use ngxora.Config.Parser.Sound.{parse_tokens_sound}
use ngxora.Config.Parser.Fuel.{parse_stmt-length, take_args-length}

abbrev Gives {ℓ} : {A : Type ℓ} → Result (A × List Token) → A → List Lex → Type ℓ
Gives r a rest = (ts : List Token) × (r ≡ ok (a, ts)) × (map lex ts ≡ rest)

abbrev IsStop : Lex → Type 0
IsStop x = (x ≡ ending) ⊎ (x ≡ opening)

take_args_complete :
    (args : List Text) (ts : List Token) (x : Lex) (rest : List Lex)
    → IsStop x
    → map lex ts ≡ words args (x ∷ rest)
    → ((take_args ts).0 ≡ args) × (map lex (take_args ts).1 ≡ x ∷ rest)
unfolding take_args
take_args_complete [] [] x rest s h = cc
take_args_complete [] (t ∷ ts) x rest s h = ground arith
take_args_complete (a ∷ as') [] x rest s h = cc
take_args_complete (a ∷ as') (t ∷ ts) x rest s h =
    ground (arith, take_args_complete as' ts x rest s)

expect_r_brace_complete :
    (ts : List Token) (rest : List Lex)
    → map lex ts ≡ closing ∷ rest
    → (r : List Token) × (expect_r_brace ts ≡ ok r) × (map lex r ≡ rest)
unfolding expect_r_brace
expect_r_brace_complete [] rest h = cc
expect_r_brace_complete (t ∷ ts) rest h = (ts, ground arith, ground arith)

end_stmt_directive :
    (name : Text) (args : List Text) (items : List Token → Result (Nodes × List Token))
    (ts : List Token) (rest : List Lex)
    → map lex ts ≡ ending ∷ rest
    → Gives (end_stmt name args items ts) (directive name args) rest
unfolding end_stmt
end_stmt_directive name args items [] rest h = cc
end_stmt_directive name args items (t ∷ ts) rest h = (ts, ground arith, ground arith)

end_block_complete :
    (name : Text) (args : List Text) (r : Result (Nodes × List Token)) (ns : Nodes)
    (rest : List Lex)
    → Gives r ns (closing ∷ rest)
    → Gives (end_block name args r) (block name args ns) rest
unfolding end_block
end_block_complete name args r ns rest (mid, e, m) =
    let (ts, e', m') = expect_r_brace_complete mid rest m in (ts, rw (e, e'), m')

end_stmt_block :
    (name : Text) (args : List Text) (items : List Token → Result (Nodes × List Token))
    (ts : List Token) (ns : Nodes) (inner rest : List Lex)
    → map lex ts ≡ opening ∷ inner
    → ((r : List Token)
        → length r < length ts
        → map lex r ≡ inner
        → Gives (items r) ns (closing ∷ rest))
    → Gives (end_stmt name args items ts) (block name args ns) rest
unfolding end_stmt
end_stmt_block name args items [] ns inner rest h i = cc
end_stmt_block name args items (t ∷ ts) ns inner rest h i =
    let (r, e, m) =
      end_block_complete name args (items ts) ns rest (i ts (omega arith) (ground arith)) in
    (r, ground arith, m)

push_item_complete :
    (stmt : Result (Node × List Token)) (items : List Token → Result (Nodes × List Token))
    (n : Node) (ns : Nodes) (mid rest : List Lex)
    → Gives stmt n mid
    → ((r : List Token) → stmt ≡ ok (n, r) → map lex r ≡ mid → Gives (items r) ns rest)
    → Gives (push_item stmt items) (cons n ns) rest
unfolding push_item
push_item_complete stmt items n ns mid rest (r, e, m) i =
    let (r', e', m') = i r e m in (r', rw (e, e'), m')

-- What may follow a sequence of items.
abbrev Ends : Bool → List Lex → Type 0
Ends true rest = (r : List Lex) × (rest ≡ closing ∷ r)
Ends false rest = rest ≡ []

parse_items_nil :
    (f : ℕ) (u : Bool) (ts : List Token) (rest : List Lex)
    → Ends u rest
    → 2 * length ts < f
    → map lex ts ≡ rest
    → Gives (parse_items f u ts) nil rest
unfolding parse_items
parse_items_nil zero u ts rest e l h = absurd (omega arith)
parse_items_nil (suc f) true [] rest (r, e) l h = cc
parse_items_nil (suc f) true (t ∷ ts) rest (r, e) l h = (t ∷ ts, ground arith, h)
parse_items_nil (suc f) false [] rest e l h = ([], refl, h)
parse_items_nil (suc f) false (t ∷ ts) rest e l h = cc

-- A statement begins with a word, so the loop does not end on it.
parse_items_cons :
    (f : ℕ) (u : Bool) (t : Token) (ts : List Token)
    → (w : Text) → lex t ≡ word w
    → parse_items (suc f) u (t ∷ ts) ≡ push_item (parse_stmt f (t ∷ ts)) (λ r. parse_items f u r)
unfolding parse_items
parse_items_cons f u t ts w h = ground arith

parse_stmt_word :
    (f : ℕ) (t : Token) (ts : List Token)
    → (w : Text) → lex t ≡ word w
    → parse_stmt (suc f) (t ∷ ts)
      ≡ end_stmt w (take_args ts).0 (λ r. parse_items f true r) (take_args ts).1
unfolding parse_stmt
parse_stmt_word f t ts w h = ground arith

flatten_node-word :
    (n : Node) (rest : List Lex) → (w : Text) × (r : List Lex) × (flatten_node n rest ≡ word w ∷ r)
unfolding flatten_node
flatten_node-word (directive name args) rest = (name, words args (ending ∷ rest), refl)
flatten_node-word (block name args ns) rest =
    (name, words args (opening ∷ flatten_nodes ns (closing ∷ rest)), refl)

mutual
  unfolding flatten_node flatten_nodes

  parse_stmt_complete :
      (n : Node) (f : ℕ) (t : Token) (ts : List Token) (rest : List Lex)
      → 2 * length ts < f
      → map lex (t ∷ ts) ≡ flatten_node n rest
      → Gives (parse_stmt (suc f) (t ∷ ts)) n rest
  parse_stmt_complete (directive name args) f t ts rest l h =
      let (a, m) = take_args_complete args ts ending rest (inl refl) (ground arith) in
      rw (parse_stmt_word f t ts name (ground arith))
        (rw a (end_stmt_directive name args (λ r. parse_items f true r) (take_args ts).1 rest m))
  parse_stmt_complete (block name args ns) f t ts rest l h =
      let inner : List Lex = flatten_nodes ns (closing ∷ rest) in
      let (a, m) = take_args_complete args ts opening inner (inr refl) (ground arith) in
      rw (parse_stmt_word f t ts name (ground arith)) (
        rw a (
          end_stmt_block name args (λ r. parse_items f true r) (take_args ts).1 ns inner rest m
            (λ r e q.
              parse_items_complete ns f true r (closing ∷ rest) (rest, refl)
                (omega (arith, take_args-length ts)) q)))

  parse_items_complete :
      (ns : Nodes) (f : ℕ) (u : Bool) (ts : List Token) (rest : List Lex)
      → Ends u rest
      → 2 * length ts < f
      → map lex ts ≡ flatten_nodes ns rest
      → Gives (parse_items f u ts) ns rest
  parse_items_complete nil f u ts rest e l h = parse_items_nil f u ts rest e l h
  parse_items_complete (cons n ns) f u [] rest e l h =
      let (w, r, q) = flatten_node-word n (flatten_nodes ns rest) in cc
  parse_items_complete (cons n ns) zero u (t ∷ ts) rest e l h = absurd (omega arith)
  parse_items_complete (cons n ns) (suc zero) u (t ∷ ts) rest e l h = absurd (omega arith)
  parse_items_complete (cons n ns) (suc (suc f)) u (t ∷ ts) rest e l h =
      let (w, r, q) = flatten_node-word n (flatten_nodes ns rest) in
      rw (parse_items_cons (suc f) u t ts w (ground arith)) (
        push_item_complete (parse_stmt (suc f) (t ∷ ts)) (λ r. parse_items (suc f) u r) n ns
          (flatten_nodes ns rest) rest
          (parse_stmt_complete n f t ts (flatten_nodes ns rest) (omega arith) h)
          (λ r e' m.
            parse_items_complete ns (suc f) u r rest e
              (omega (arith, parse_stmt-length (suc f) (t ∷ ts) n r e')) m))

parse_tokens_complete :
    (ts : List Token) (ns : Nodes) → map lex ts ≡ flatten_nodes ns [] → parse_tokens ts ≡ ok ns
unfolding parse_tokens
parse_tokens_complete ts ns h =
    let (r, e, m) =
      parse_items_complete ns (suc (2 * length ts)) false ts [] refl (omega arith) h in
    rw e

-- Parsing a list of tokens succeeds with a tree if and only if the lexemes of the tokens are those
-- of the tree.
pub parse_tokens_iff :
    (ts : List Token) (ns : Nodes) → (parse_tokens ts ≡ ok ns) ↔ (map lex ts ≡ flatten_nodes ns [])
parse_tokens_iff ts ns = (parse_tokens_sound ts ns, parse_tokens_complete ts ns)
