-- ===== src/Registry/Net/Script.antt =====
-- A network for runs: the world is the list of the answers that are left, the clock stands still, and
-- numbers have one digit.
use oci_tool.Prelude.{
  ℕ, ◌+◌, ◌-◌, leb, Bool, true, if◌then◌else◌, Option, none, some, List, [], ◌∷◌, Text, codes, Exec,
  Outcome, returns, pure, ◌>>=◌,
}
use oci_tool.Json.Tree.{tree_json, Tree, Fields}
use oci_tool.Registry.Net.{Net, Response}

abbrev pub next_answer : List (Option Response) → Option Response × List (Option Response)
next_answer [] = (none, [])
next_answer (r ∷ rs) = (r, rs)

-- An answer whose body is handed over in one piece; it is lost where the callback refuses it.
abbrev pub given :
    {W S : Type 0}
    → Option Response × W
    → (List ℕ → Exec S Bool)
    → S
    → Outcome (Option Response) × (W × S)
given (none, w) call_back x = (returns none, (w, x))
given (some r, w) call_back x =
    let (o, y) = (call_back r.body >>= λ b. pure (if b then some r else none)) x in (o, (w, y))

abbrev digit : Text → Option ℕ
digit [] = none
digit (c ∷ s) = some (c - b'0')

abbrev count_of : Tree → Option ℕ
count_of (Tree.count n) = some n
count_of _ = none

-- Every body is read as a token of an hour.
abbrev token_tree : Text → Option Tree
token_tree body = some (
    Tree.branch (
      Fields.field (codes "token") (Tree.leaf body)
        (Fields.field (codes "expires_in") (Tree.count 3600) Fields.end)))

abbrev pub scripted : Net tree_json
scripted = record {
  World = List (Option Response);
  send = λ s q w. next_answer w;
  fetch = λ s q call_back (w, x). given (next_answer w) call_back x;
  is_valid = λ s. true;
  parse = token_tree;
  Time = ℕ;
  Seconds = ℕ;
  now = λ w. (0, w);
  after = ◌+◌;
  is_past = leb;
  minute = 60;
  unset_seconds = 0;
  epoch = 0;
  get_seconds = count_of;
  read_time = λ t. 0;
  stoul = digit;
  to_string = λ n. (n + b'0') ∷ [];
  getenv = λ k. none;
  stoi_port = digit;
}

-- A network that gives always the same answer.
abbrev pub constant : Response → Net tree_json
constant r = record {
  World = Unit {0};
  send = λ s q w. (some r, w);
  fetch = λ s q call_back (w, x). given (some r, w) call_back x;
  is_valid = λ s. true;
  parse = token_tree;
  Time = ℕ;
  Seconds = ℕ;
  now = λ w. (0, w);
  after = ◌+◌;
  is_past = leb;
  minute = 60;
  unset_seconds = 0;
  epoch = 0;
  get_seconds = count_of;
  read_time = λ t. 0;
  stoul = digit;
  to_string = λ n. (n + b'0') ∷ [];
  getenv = λ k. none;
  stoi_port = digit;
}
