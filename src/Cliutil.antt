-- ===== src/Cliutil.antt =====
-- cliutil/help.go: the words that ask for the usage of a command.
use dnsplane.Base.{Bool, false, ◌||◌, List, [], ◌∷◌, any}
use dnsplane.Text.{Text, text_eq, codes, trim_space, to_lower}

is_help_word : Text → Bool
unfolding text_eq
is_help_word t = text_eq t (codes "?") || text_eq t (codes "help") || text_eq t (codes "h")

unfoldable pub is_help_token : Text → Bool
unfolding is_help_word trim_space to_lower
is_help_token token = is_help_word (trim_space (to_lower token))

unfoldable pub is_help_request : List Text → Bool
unfolding is_help_token
is_help_request [] = false
is_help_request (arg ∷ args) = is_help_token arg

unfoldable pub contains_help_token : List Text → Bool
unfolding is_help_token
contains_help_token args = any is_help_token args
