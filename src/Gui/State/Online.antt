-- ===== src/Gui/State/Online.antt =====
-- The users and friends that the client shows, against the lists that the server sends.
use g04_final_project_d_25_c.Prelude.{
  Bool, true, false, ◌&&◌, ◌||◌, not, String, Option, none, some, List, [], ◌∷◌, ◌≡◌, refl, subst,
  ◌==◌, String_eq, eq_iff, Bool-cases, inl, inr, arith, contains, if◌then◌else◌,
}
use g04_final_project_d_25_c.Dict.{Dict, get, get-put}
use g04_final_project_d_25_c.Gui.Model.{User, online, offline}
use g04_final_project_d_25_c.Gui.Application.{ApplicationModel, add_or_update_user}
use g04_final_project_d_25_c.Gui.State.{GuiState, on_online_users, add_online, mark_absent, is_me}

abbrev pub shows_online : Option User → Bool
shows_online none = false
shows_online (some u) = elim u.status [ online ↦ true | _ ↦ false ]

add_or_update_user-shows_online :
    (u name : String) (m : ApplicationModel)
    → shows_online (get name (add_or_update_user u "ONLINE" false m).users)
      ≡ ((u == name) || shows_online (get name m.users))
unfolding add_or_update_user
add_or_update_user-shows_online u name m = elim (Bool-cases (u == name)) [
  | inl e ↦ rw (get-put u name _ m.users, e) refl
  | inr e ↦ rw (get-put u name _ m.users, e) refl
]

add_online-shows_online :
    (us : List String) (name : String) (m : ApplicationModel)
    → shows_online (get name (add_online us m).users)
      ≡ (contains name us || shows_online (get name m.users))
add_online-shows_online [] name m = refl
add_online-shows_online (u ∷ us) name m = ground (
  arith,
  add_online-shows_online us name (add_or_update_user u "ONLINE" false m),
  add_or_update_user-shows_online u name m,
)

add_online-username :
    (us : List String) (m : ApplicationModel) → (add_online us m).username ≡ m.username
unfolding add_or_update_user
add_online-username [] m = refl
add_online-username (u ∷ us) m = add_online-username us (add_or_update_user u "ONLINE" false m)

abbrev mark : List String → Option String → String → User → User
mark seen me name user =
    if not (contains name seen) && not (is_me name me)
    then record user { status = offline }
    else user

absent-shows_online :
    (b c : Bool) (u : User)
    → shows_online (some (if not b && not c then record u { status = offline } else u))
      ≡ (shows_online (some u) && (b || c))
absent-shows_online false false u = ground arith
absent-shows_online false true u = ground arith
absent-shows_online true c u = ground arith

absorb : (c b : Bool) → ((c || b) && (c || false)) ≡ c
absorb false b = ground arith
absorb true b = refl

-- Who is not seen goes offline, but for the user of the client.
mark_absent-shows_online :
    (seen : List String) (me : Option String) (name : String) (users : Dict String User)
    → shows_online (get name (mark_absent seen me users))
      ≡ (shows_online (get name users) && (contains name seen || is_me name me))
unfolding get
mark_absent-shows_online seen me name [] = refl
mark_absent-shows_online seen me name ((j, u) ∷ users) = elim (Bool-cases (j == name)) [
  | inl e ↦ rw (e) (
      subst
        (λ x.
          shows_online (some (mark seen me j u))
          ≡ (shows_online (some u) && (contains x seen || is_me x me)))
        ((eq_iff j name).0 e) (absent-shows_online (contains j seen) (is_me j me) u))
  | inr e ↦ rw (e) (mark_absent-shows_online seen me name users)
]

-- After the server's list of the users who are online has come, the client shows any other user as
-- online if and only if that user is on the list, whatever it showed before.
pub on_online_users-shows_online :
    (users : List String) (g : GuiState) (name : String)
    → is_me name g.model.username ≡ false
    → shows_online (get name (on_online_users users g).model.users) ≡ contains name users
unfolding on_online_users
on_online_users-shows_online users g name other =
    rw
      (
        mark_absent-shows_online users (add_online users g.model).username name
            (add_online users g.model).users,
        add_online-shows_online users name g.model,
        add_online-username users g.model,
        other,
      )
      (absorb (contains name users) (shows_online (get name g.model.users)))
