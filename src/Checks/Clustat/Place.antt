-- ===== src/Checks/Clustat/Place.antt =====
-- Which groups are missing and which are foreign.
use monitoringplug.Base.{
  ℕ, ◌^◌, ◌<◌, Bool, true, false, not, ◌&&◌, ◌||◌, Option, none, some, List, [], ◌∷◌, ◌≡◌, refl, ap,
  ◌∙◌, arith, Bytes, ltb, ◌==◌, if◌then◌else◌,
}
use monitoringplug.Base.Int.{pos, ltb_ℤ, eqb_ℤ}
use monitoringplug.Text.{str_eq}
use monitoringplug.Utils.{strcat_comma, to_int}
use monitoringplug.Getopt.{completed, ◌>>=◌}
use monitoringplug.Rhcs.{low_bits, Group, Clustat}
use monitoringplug.Rhcs.Conf.{ConfNode, Member, Configuration}
use monitoringplug.Checks.Clustat.{
  same, Priorities, no_priorities, rank_member, member_name, rank_members, Misplaced, place_group,
  node_name, judge_members,
}

-- A member with the name of its node.
abbrev pub Ranked : Type 0
Ranked = Bytes × ℕ

abbrev pub NamesMember : List ConfNode → Member → Ranked → Type 0
NamesMember nodes m (name, priority) =
    (member_name nodes m ≡ completed name) × (m.priority ≡ priority) × (priority < 2 ^ 31)

abbrev pub Names : List ConfNode → List Member → List Ranked → Type 0
Names nodes [] [] = Unit
Names nodes (m ∷ ms) (x ∷ xs) = NamesMember nodes m x × Names nodes ms xs
Names nodes _ _ = ⊥

-- The specification: the last priority of a name, and the least of all, with what holds if there is none.
abbrev pub last_of : Bytes → ℕ → List Ranked → ℕ
last_of wanted default [] = default
last_of wanted default ((name, priority) ∷ xs) =
    last_of wanted (if str_eq name wanted then priority else default) xs

abbrev pub last_of_owner : Option Bytes → ℕ → List Ranked → ℕ
last_of_owner none default xs = default
last_of_owner (some owner) default xs = last_of owner default xs

abbrev pub least : ℕ → List Ranked → ℕ
least bound [] = bound
least bound ((name, priority) ∷ xs) = least (if ltb priority bound then priority else bound) xs

abbrev pub unlimited : ℕ
unlimited = 2147483647

abbrev priorities : ℕ → ℕ → ℕ → Priorities
priorities l o b = record { localprio = pos l; ownerprio = pos o; bestprio = pos b }

to_int-small : (n : ℕ) → n < 2 ^ 31 → to_int (pos n) ≡ pos n
unfolding to_int
to_int-small n h = ground arith

low_bits-small : (n : ℕ) → n < 2 ^ 31 → low_bits 32 (pos n) ≡ n
unfolding low_bits
low_bits-small n h = omega arith

-- an `if` between priorities
if_int :
    (c : Bool) (n d : ℕ)
    → n < 2 ^ 31
    → (if c then to_int (pos n) else pos d) ≡ pos (if c then n else d)
if_int true n d h = to_int-small n h
if_int false n d h = refl

owner_next : Option Bytes → Bytes → ℕ → ℕ → ℕ
owner_next none name n o = o
owner_next (some owner) name n o = if str_eq name owner then n else o

owner_int :
    (owner : Option Bytes) (name : Bytes) (n o : ℕ)
    → n < 2 ^ 31
    → elim owner [ none ↦ pos o | some w ↦ if str_eq name w then to_int (pos n) else pos o ]
      ≡ pos (owner_next owner name n o)
unfolding owner_next
owner_int none name n o h = refl
owner_int (some w) name n o h = if_int (str_eq name w) n o h

rank_member-next :
    (local : Bytes) (owner : Option Bytes) (name : Bytes) (n l o b : ℕ)
    → n < 2 ^ 31
    → b < 2 ^ 31
    → rank_member local owner name n (priorities l o b)
      ≡ priorities
          (if str_eq name local then n else l)
          (owner_next owner name n o)
          (if ltb n b then n else b)
unfolding rank_member
rank_member-next local owner name n l o b h k =
    let first = if_int (str_eq name local) n l h in
    let second = owner_int owner name n o h in
    let third : (if ltb n (low_bits 32 (pos b)) then to_int (pos n) else pos b)
        ≡ pos (if ltb n b then n else b) =
      ap (λ c. if ltb n c then to_int (pos n) else pos b) (low_bits-small b k)
      ∙ if_int (ltb n b) n b h in
    λ i. record { localprio = first i; ownerprio = second i; bestprio = third i }

last_of_owner-next :
    (owner : Option Bytes) (name : Bytes) (n o : ℕ) (xs : List Ranked)
    → last_of_owner owner (owner_next owner name n o) xs ≡ last_of_owner owner o ((name, n) ∷ xs)
unfolding owner_next
last_of_owner-next none name n o xs = refl
last_of_owner-next (some w) name n o xs = refl

rank_members-last_of :
    (nodes : List ConfNode) (local : Bytes) (owner : Option Bytes) (ms : List Member)
    (xs : List Ranked) (l o b : ℕ)
    → Names nodes ms xs
    → b < 2 ^ 31
    → rank_members nodes local owner ms (priorities l o b)
      ≡ completed (priorities (last_of local l xs) (last_of_owner owner o xs) (least b xs))
unfolding rank_members
rank_members-last_of nodes local none [] [] l o b h k = refl
rank_members-last_of nodes local (some w) [] [] l o b h k = refl
rank_members-last_of nodes local owner [] (x ∷ xs) l o b h k = absurd h
rank_members-last_of nodes local owner (m ∷ ms) [] l o b h k = absurd h
rank_members-last_of nodes local owner (m ∷ ms) ((name, n) ∷ xs) l o b ((named, known, small), hs)
      k =
    ap
      (λ q. q >>= (λ name.
        rank_members nodes local owner ms
          (rank_member local owner name m.priority (priorities l o b))))
      named
    ∙ ap
        (λ q. rank_members nodes local owner ms (rank_member local owner name q (priorities l o b)))
        known
    ∙ ap (rank_members nodes local owner ms) (rank_member-next local owner name n l o b small k)
    ∙ rank_members-last_of nodes local owner ms xs (if str_eq name local then n else l)
        (owner_next owner name n o) (if ltb n b then n else b) hs (ground arith)
    ∙ ap
        (λ q.
          completed (priorities (last_of local l ((name, n) ∷ xs)) q (least b ((name, n) ∷ xs))))
        (last_of_owner-next owner name n o xs)

-- The specification: a group is foreign if it runs on the local node and a better one is in its domain,
-- and missing if it runs elsewhere, or nowhere, and the local node is better, or if it runs nowhere, the
-- local node is one of the best and the group is to start by itself.
abbrev pub is_foreign : Option ℕ → Group → Bytes → List Ranked → Bool
is_foreign place g local xs =
    same g.owner place && ltb (least unlimited xs) (last_of local unlimited xs)

abbrev pub is_missing : Option ℕ → Group → Bool → Bytes → Option Bytes → List Ranked → Bool
is_missing place g autostart local owner xs =
    (not (same g.owner place)
      && ltb (last_of local unlimited xs) (last_of_owner owner unlimited xs))
    || (same g.owner none && ((last_of local unlimited xs == least unlimited xs) && autostart))

abbrev pub placed : Bool → Bool → Group → Misplaced → Misplaced
placed missing foreign g m = record {
  missing = if missing then strcat_comma m.missing g.name else m.missing;
  foreign = if foreign then strcat_comma m.foreign g.name else m.foreign;
}

ltb_ℤ-pos : (a b : ℕ) → ltb_ℤ (pos a) (pos b) ≡ ltb a b
ltb_ℤ-pos a b = ground arith

eqb_ℤ-pos : (a b : ℕ) → eqb_ℤ (pos a) (pos b) ≡ (a == b)
eqb_ℤ-pos a b = ground arith

place_group-placed :
    (place : Option ℕ) (g : Group) (autostart : Bool) (l o b : ℕ) (m : Misplaced)
    → place_group place g autostart (priorities l o b) m
      ≡ placed
          ((not (same g.owner place) && ltb l o) || (same g.owner none && ((l == b) && autostart)))
          (same g.owner place && ltb b l)
          g
          m
unfolding place_group
place_group-placed place g autostart l o b m = λ i.
    placed
      ((not (same g.owner place) && ltb_ℤ-pos l o i)
        || (same g.owner none && (eqb_ℤ-pos l b i && autostart)))
      (same g.owner place && ltb_ℤ-pos b l i) g m

-- For a group with a domain of members, each with a node of a name and a priority below 2^31, the check
-- adds the group's name to the foreign ones and to the missing ones exactly as the specification says:
-- `last_of` is the priority of the local node, or of the owner's node, in the domain, `least` the best of
-- all.
pub judge_members-placed :
    (clustat : Clustat) (conf : Configuration) (local : Bytes) (g : Group) (autostart : Bool)
    (x : Member) (ms : List Member) (xs : List Ranked) (owner : Option Bytes) (m : Misplaced)
    → node_name clustat.node g.owner ≡ completed owner
    → Names conf.node (x ∷ ms) xs
    → judge_members clustat conf (some local) g autostart (x ∷ ms) m
      ≡ completed (
          placed
            (is_missing clustat.local g autostart local owner xs)
            (is_foreign clustat.local g local xs)
            g
            m)
unfolding judge_members
judge_members-placed clustat conf local g autostart x ms xs owner m owned named =
    let placing = λ (r : Priorities). completed (place_group clustat.local g autostart r m) in
    ap (λ o. o >>= (λ w. rank_members conf.node local w (x ∷ ms) no_priorities >>= placing)) owned
    ∙ ap (λ o. o >>= placing)
        (rank_members-last_of conf.node local owner (x ∷ ms) xs unlimited unlimited unlimited named
          (omega arith))
    ∙ ap completed (
        place_group-placed clustat.local g autostart (last_of local unlimited xs)
          (last_of_owner owner unlimited xs) (least unlimited xs) m)
