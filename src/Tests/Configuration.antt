-- ===== src/Tests/Configuration.antt =====
-- Runs of the lexer and the parser of crates/ngxora-config.
use ngxora.Base.{codes, ◌≡◌, ◌≢◌, ◌↔◌, refl, [], ◌∷◌, Text}
use ngxora.Config.Ast.{Nodes, directive, block, nil, cons}
use ngxora.Config.Grammar.{flatten_nodes}
use ngxora.Config.Lexer.{tokenize}
use ngxora.Config.Lexer.Spelling.{Spells}
use ngxora.Config.Parser.{ok, err, eof_after_directive, out_of_fuel, parse_tokens, parse_config}
use ngxora.Config.Parser.Fuel.{parse_tokens-ne-out_of_fuel}
use ngxora.Config.RoundTrip.{print, parse_config_iff, parse_config-print}

abbrev server_text : Text
server_text = codes "http {\n listen 80 ssl; # x }\n}\na b;"

abbrev server_nodes : Nodes
server_nodes =
    cons
      (block (codes "http") []
        (cons (directive (codes "listen") (codes "80" ∷ codes "ssl" ∷ [])) nil))
      (cons (directive (codes "a") (codes "b" ∷ [])) nil)

parses : parse_config server_text ≡ ok server_nodes
unfolding parse_config
parses = refl

unfinished : parse_config (codes "a b") ≡ err eof_after_directive
unfolding parse_config
unfinished = refl

parse_config_iff_example :
    (parse_config server_text ≡ ok server_nodes)
    ↔ Spells server_text (flatten_nodes server_nodes [])
parse_config_iff_example = parse_config_iff server_text server_nodes

parse_config-print_example : parse_config (print server_nodes) ≡ ok server_nodes
parse_config-print_example = parse_config-print server_text server_nodes parses

parse_tokens-ne-out_of_fuel_example : parse_tokens (tokenize server_text) ≢ err out_of_fuel
parse_tokens-ne-out_of_fuel_example = parse_tokens-ne-out_of_fuel (tokenize server_text)
