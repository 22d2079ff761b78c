-- ===== src/Automaton.antt =====
-- Scan/Automaton/Automaton.h, AutomatonBuilder.cpp and AutomatonScanner.cpp: the Aho-Corasick
-- automaton, its builder and the scan of one chunk. An `int` that may be -1 is an `Option`; a
-- node's 256-entry array is a function; `nodes_[i]` out of range, which the proofs exclude, reads
-- a fresh node. The children prove what the builder and the scanner compute.
pub mod Store
pub mod Words
pub mod Trie
pub mod Goto
pub mod Links
pub mod Advance
pub mod Steps
pub mod Loop
pub mod Insert
pub mod Match
pub mod Correct
pub mod Bounds
pub mod Tests
use virus_detector.Base.{
  ℕ, zero, suc, ◌+◌, ◌-◌, ◌^◌, Bool, true, false, Option, none, some, List, [], ◌∷◌, ◌++◌, Bytes,
  length, get_or, set, ◌==◌, ◌&&◌, if◌then◌else◌,
}

pub record AutomatonNode : Type 0 where
  pub next : ℕ → Option ℕ
  pub failure_link : ℕ
  pub output : List ℕ

abbrev pub new_node : AutomatonNode
new_node = record { next = λ b. none; failure_link = 0; output = [] }

abbrev pub Nodes : Type 0
Nodes = List AutomatonNode

pub record Automaton : Type 0 where
  pub nodes : Nodes
  pub signature_count : ℕ
  pub built : Bool

pub node_count : Automaton → ℕ
node_count a = length a.nodes

-- The automaton of `Automaton automaton;`, before the builder fills it.
abbrev pub empty_automaton : Automaton
empty_automaton = record { nodes = []; signature_count = 0; built = false }

-- `static_cast<std::size_t>` of an `int` that is -1 or a state.
unfoldable pub index : Option ℕ → ℕ
index none = 2 ^ 64 - 1
index (some s) = s

unfoldable pub next : Nodes → ℕ → ℕ → Option ℕ
next ns s b = (get_or ns s new_node).next b

pub failure : Nodes → ℕ → ℕ
failure ns s = (get_or ns s new_node).failure_link

unfoldable pub output : Nodes → ℕ → List ℕ
output ns s = (get_or ns s new_node).output

pub set_next : Nodes → ℕ → ℕ → Option ℕ → Nodes
set_next ns s b v = set ns s (record (get_or ns s new_node) {
  next = λ c. if c == b then v else (get_or ns s new_node).next c;
})

pub set_failure : Nodes → ℕ → ℕ → Nodes
set_failure ns s f = set ns s (record (get_or ns s new_node) { failure_link = f })

pub append_output : Nodes → ℕ → List ℕ → Nodes
append_output ns s is =
    set ns s (record (get_or ns s new_node) { output = (get_or ns s new_node).output ++ is })

-- The loop of addSignature over the bytes of one signature, with the state that it ends in.
pub add_bytes : Nodes → ℕ → Bytes → Nodes × ℕ
add_bytes ns s [] = (ns, s)
add_bytes ns s (b ∷ bs) = elim (next ns s b) [
  | none ↦ add_bytes (set_next (ns ++ new_node ∷ []) s b (some (length ns))) (length ns) bs
  | some t ↦ add_bytes ns t bs
]

pub add_signature : Nodes → Bytes → ℕ → Nodes
add_signature ns [] i = ns
add_signature ns (b ∷ bs) i = let (ns', s) = add_bytes ns 0 (b ∷ bs) in append_output ns' s (i ∷ [])

-- The loop of build over the signatures: the nodes and the count of those inserted.
pub add_signatures : Nodes → ℕ → ℕ → List Bytes → Nodes × ℕ
add_signatures ns count i [] = (ns, count)
add_signatures ns count i ([] ∷ rest) = add_signatures ns count (suc i) rest
add_signatures ns count i ((b ∷ bs) ∷ rest) =
    add_signatures (add_signature ns (b ∷ bs) i) (suc count) (suc i) rest

-- One byte of the loop over `nodes[0].next`.
pub root_byte : ℕ → Nodes → List ℕ → Nodes × List ℕ
root_byte b ns pending = elim (next ns 0 b) [
  | none ↦ (set_next ns 0 b (some 0), pending)
  | some t ↦ (set_failure ns t 0, pending ++ t ∷ [])
]

-- One byte of the loop over `nodes[state].next`.
pub state_byte : ℕ → ℕ → ℕ → Nodes → List ℕ → Nodes × List ℕ
state_byte s f b ns pending = elim (next ns s b) [
  | none ↦ (set_next ns s b (next ns f b), pending)
  | some t ↦
      let linked = set_failure ns t (index (next ns f b)) in
      (append_output linked t (output linked (index (next ns f b))), pending ++ t ∷ [])
]

-- A loop over the bytes `b`, `b + 1`, …, with the number of rounds left.
pub byte_loop : (ℕ → Nodes → List ℕ → Nodes × List ℕ) → ℕ → ℕ → Nodes → List ℕ → Nodes × List ℕ
byte_loop body zero b ns pending = (ns, pending)
byte_loop body (suc rounds) b ns pending =
    let (ns', pending') = body b ns pending in byte_loop body rounds (suc b) ns' pending'

-- `while (!pending.empty())`; `none` means that the fuel ran out first.
pub link_loop : ℕ → Nodes → List ℕ → Option Nodes
link_loop fuel ns [] = some ns
link_loop zero ns (s ∷ pending) = none
link_loop (suc fuel) ns (s ∷ pending) =
    let (ns', pending') = byte_loop (state_byte s (failure ns s)) 256 0 ns pending in
    link_loop fuel ns' pending'

-- Each state is queued once at most, so the number of nodes is fuel enough.
pub build_failure_links : Nodes → Option Nodes
build_failure_links ns =
    let (ns', pending) = byte_loop root_byte 256 0 ns [] in link_loop (length ns) ns' pending

pub build : List Bytes → Option Automaton
build signatures =
    let (ns, count) = add_signatures (new_node ∷ []) 0 0 signatures in
    elim (build_failure_links ns) [
      | none ↦ none
      | some linked ↦ some (record { nodes = linked; signature_count = count; built = true })
    ]

-- `int step(int state, unsigned char byte)` and `outputs(int state)`.
unfoldable pub step : Automaton → ℕ → ℕ → Option ℕ
step a s b = next a.nodes s b

unfoldable pub outputs : Automaton → ℕ → List ℕ
outputs a s = output a.nodes s

-- std::unordered_set::insert, on a list without repetitions.
unfoldable pub insert_index : ℕ → List ℕ → List ℕ
insert_index i [] = i ∷ []
insert_index i (j ∷ js) = if i == j then j ∷ js else j ∷ insert_index i js

unfoldable pub insert_all : List ℕ → List ℕ → List ℕ
insert_all [] matched = matched
insert_all (i ∷ is) matched = insert_all is (insert_index i matched)

-- scanChunk: the state is carried from chunk to chunk. A byte at which the automaton has no next
-- state, which no built automaton has, would index the nodes by -1.
unfoldable pub scan_chunk : Automaton → Bytes → ℕ → List ℕ → ℕ × List ℕ
scan_chunk a [] s matched = (s, matched)
scan_chunk a (b ∷ bytes) s matched =
    let s' = index (step a s b) in scan_chunk a bytes s' (insert_all (outputs a s') matched)
