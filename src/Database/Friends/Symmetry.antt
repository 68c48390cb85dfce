-- ===== src/Database/Friends/Symmetry.antt =====
-- database/db.py, the table of friendships: they are kept in both directions.
use g04_final_project_d_25_c.Prelude.{
  ℕ, ◌≡◌, refl, ap, ◌∙◌, Bool, true, false, ◌&&◌, ◌||◌, not, ◌==◌, ℕ_eq, List, [], ◌∷◌, ◌++◌,
  any_row, keep_if, arith, Bool-cases, inl, inr,
}
use g04_final_project_d_25_c.Database.{Database, Friendship}
use g04_final_project_d_25_c.Database.Friends.{
  has_friendship, add_friend_by_id, drop_friendship, links,
}

any_row-snoc :
    (p : Friendship → Bool) (xs : List Friendship) (y : Friendship)
    → any_row p (xs ++ y ∷ []) ≡ (any_row p xs || p y)
any_row-snoc p [] y = elim (Bool-cases (p y)) [ inl e ↦ rw e refl | inr e ↦ rw e refl ]
any_row-snoc p (x ∷ xs) y = elim (Bool-cases (p x)) [
  | inl e ↦ rw e refl
  | inr e ↦ rw e (any_row-snoc p xs y)
]

abbrev pub is_pair : ℕ → ℕ → ℕ → ℕ → Bool
is_pair a b x y = a == x && b == y

links_same : (a b x y : ℕ) (f : Friendship) → links a b f ≡ true → links x y f ≡ is_pair a b x y
links_same a b x y f h = ground arith

links-pair : (a b x y : ℕ) (f : Friendship) → is_pair a b x y ≡ true → links x y f ≡ links a b f
links-pair a b x y f h = ground arith

any_row-pair :
    (a b x y : ℕ) (l : List Friendship)
    → is_pair a b x y ≡ true
    → any_row (links x y) l ≡ any_row (links a b) l
any_row-pair a b x y [] h = refl
any_row-pair a b x y (f ∷ l) h = rw (links-pair a b x y f h, any_row-pair a b x y l h) refl

absorb_old : (p q : Bool) → (q ≡ true → p ≡ true) → p ≡ (p || q)
absorb_old true q h = refl
absorb_old false true h = h refl
absorb_old false false h = refl

absorb : (p q r : Bool) → (r && not (p || q)) ≡ ((p || r) && not (p || q))
absorb true q r = ground arith
absorb false q r = refl

absorb_swapped : (p q r : Bool) → (r && not (p || q)) ≡ ((q || r) && not (p || q))
absorb_swapped true q r = ground arith
absorb_swapped false true r = ground arith
absorb_swapped false false r = refl

spare :
    (l p q r : Bool)
    → (l ≡ true → (p || q) ≡ false)
    → (l || (r && not (p || q))) ≡ ((l || r) && not (p || q))
spare true p q r h = rw (h refl) refl
spare false p q r h = refl

unlinked :
    (a b x y : ℕ) (f : Friendship)
    → links a b f ≡ false
    → links x y f ≡ true
    → is_pair a b x y ≡ false
unlinked a b x y f h k = ground arith

any_row-dropped :
    (a b x y : ℕ) (l : List Friendship)
    → any_row (links x y) (keep_if (λ f. not (links a b f || links b a f)) l)
      ≡ (any_row (links x y) l && not (is_pair a b x y || is_pair b a x y))
any_row-dropped a b x y [] = refl
any_row-dropped a b x y (f ∷ l) = elim (Bool-cases (links a b f)) [
  | inl e ↦
      rw (e, any_row-dropped a b x y l, links_same a b x y f e)
        (absorb (is_pair a b x y) (is_pair b a x y) (any_row (links x y) l))
  | inr e ↦ elim (Bool-cases (links b a f)) [
    | inl g ↦
        rw (e, g, any_row-dropped a b x y l, links_same b a x y f g)
          (absorb_swapped (is_pair a b x y) (is_pair b a x y) (any_row (links x y) l))
    | inr g ↦
        rw (e, g, any_row-dropped a b x y l)
          (spare (links x y f) (is_pair a b x y) (is_pair b a x y) (any_row (links x y) l)
            (λ k. rw (unlinked a b x y f e k, unlinked b a x y f g k) refl))
  ]
]

pub has_friendship-add_friend_by_id :
    (a b x y : ℕ) (d : Database)
    → has_friendship x y (add_friend_by_id a b d) ≡ (has_friendship x y d || is_pair a b x y)
unfolding add_friend_by_id
has_friendship-add_friend_by_id a b x y d = elim (Bool-cases (any_row (links a b) d.friends.rows)) [
  | inl old ↦
      rw (old, add_friend_by_id)
        (absorb_old (any_row (links x y) d.friends.rows) (is_pair a b x y)
          (λ k. any_row-pair a b x y d.friends.rows k ∙ old))
  | inr new ↦ rw (new, add_friend_by_id) (any_row-snoc (links x y) d.friends.rows _)
]

-- Friendships in one direction are there in the other.
abbrev pub IsSymmetric : Database → Type 0
IsSymmetric d = (x y : ℕ) → has_friendship x y d ≡ has_friendship y x d

swap_parts : (p q r : Bool) → ((p || q) || r) ≡ ((p || r) || q)
swap_parts true q r = refl
swap_parts false true true = refl
swap_parts false true false = refl
swap_parts false false true = refl
swap_parts false false false = refl

is_pair_swap : (a b x y : ℕ) → is_pair a b x y ≡ is_pair b a y x
is_pair_swap a b x y = ground arith

-- Befriending writes both directions, and nothing else.
pub has_friendship-befriended :
    (a b x y : ℕ) (d : Database)
    → has_friendship x y (add_friend_by_id b a (add_friend_by_id a b d))
      ≡ ((has_friendship x y d || is_pair a b x y) || is_pair b a x y)
has_friendship-befriended a b x y d =
    has_friendship-add_friend_by_id b a x y (add_friend_by_id a b d)
    ∙ ap (λ t. t || is_pair b a x y) (has_friendship-add_friend_by_id a b x y d)

pub befriended-IsSymmetric :
    (a b : ℕ) (d : Database)
    → IsSymmetric d
    → IsSymmetric (add_friend_by_id b a (add_friend_by_id a b d))
befriended-IsSymmetric a b d h x y =
    rw
      (
        has_friendship-befriended a b x y d,
        has_friendship-befriended a b y x d,
        h x y,
        is_pair_swap a b x y,
        is_pair_swap b a x y,
      )
      (swap_parts (has_friendship y x d) (is_pair b a y x) (is_pair a b y x))

-- Unfriending takes away both directions, and nothing else.
pub has_friendship-drop_friendship :
    (a b x y : ℕ) (d : Database)
    → has_friendship x y (drop_friendship a b d)
      ≡ (has_friendship x y d && not (is_pair a b x y || is_pair b a x y))
has_friendship-drop_friendship a b x y d = any_row-dropped a b x y d.friends.rows

or_comm : (p q : Bool) → (p || q) ≡ (q || p)
or_comm true true = refl
or_comm true false = refl
or_comm false true = refl
or_comm false false = refl

pub drop_friendship-IsSymmetric :
    (a b : ℕ) (d : Database) → IsSymmetric d → IsSymmetric (drop_friendship a b d)
drop_friendship-IsSymmetric a b d h x y =
    rw
      (
        has_friendship-drop_friendship a b x y d,
        has_friendship-drop_friendship a b y x d,
        h x y,
        is_pair_swap a b x y,
        is_pair_swap b a x y,
        or_comm (is_pair b a y x) (is_pair a b y x),
      )
      refl

users-add_friend_by_id : (a b : ℕ) (d : Database) → (add_friend_by_id a b d).users ≡ d.users
unfolding add_friend_by_id
users-add_friend_by_id a b d = elim (Bool-cases (any_row (links a b) d.friends.rows)) [
  | inl old ↦ rw (old, add_friend_by_id) refl
  | inr new ↦ rw (new, add_friend_by_id) refl
]

pub users-befriended :
    (a b : ℕ) (d : Database) → (add_friend_by_id b a (add_friend_by_id a b d)).users ≡ d.users
users-befriended a b d =
    users-add_friend_by_id b a (add_friend_by_id a b d) ∙ users-add_friend_by_id a b d

requests-add_friend_by_id :
    (a b : ℕ) (d : Database) → (add_friend_by_id a b d).friend_requests ≡ d.friend_requests
unfolding add_friend_by_id
requests-add_friend_by_id a b d = elim (Bool-cases (any_row (links a b) d.friends.rows)) [
  | inl old ↦ rw (old, add_friend_by_id) refl
  | inr new ↦ rw (new, add_friend_by_id) refl
]

pub requests-befriended :
    (a b : ℕ) (d : Database)
    → (add_friend_by_id b a (add_friend_by_id a b d)).friend_requests ≡ d.friend_requests
requests-befriended a b d =
    requests-add_friend_by_id b a (add_friend_by_id a b d) ∙ requests-add_friend_by_id a b d
