-- ===== src/Server/Sessions/Laws.antt =====
-- server/session_manager.py: which sessions can be restored.
use g04_final_project_d_25_c.Prelude.{
  ℕ, ◌+◌, ◌*◌, ◌≡◌, refl, ap, ◌∙◌, Bool, true, false, ◌&&◌, not, String, String_eq, ◌==◌, none,
  some, List, [], ◌∷◌, ◌++◌, if◌then◌else◌, find_row, keep_if, update_rows, ltb, arith, Bool-cases,
  inl, inr, beq_refl,
}
use g04_final_project_d_25_c.Dict
use g04_final_project_d_25_c.Exec.{ok, pure, gets, modify, ◌>>=◌}
use g04_final_project_d_25_c.Database.{SessionRow}
use g04_final_project_d_25_c.Database.Sessions as DbSessions
use g04_final_project_d_25_c.Database.Sessions.{is_older, get_session, deactivate_session}
use g04_final_project_d_25_c.Server.State.{Server, Env, query, update_db}
use g04_final_project_d_25_c.Server.Sessions.{
  create_session, restore_session, end_session, restored,
}

abbrev is_live : String → SessionRow → Bool
is_live token r = r.session_token == token && r.active

-- No row with the token can be restored.
abbrev IsDead : String → List SessionRow → Type 0
IsDead token rows = find_row (is_live token) rows ≡ none

live_if :
    (token : String) (b : Bool) (r : SessionRow)
    → is_live token r ≡ false
    → is_live token (if b then record r { active = false } else r) ≡ false
live_if token true r h = ground arith
live_if token false r h = h

IsDead-head :
    (token : String) (r : SessionRow) (rs : List SessionRow)
    → IsDead token (r ∷ rs)
    → (is_live token r ≡ false) × IsDead token rs
IsDead-head token r rs h = elim (Bool-cases (is_live token r)) [
  | inl e ↦ ground arith
  | inr e ↦ ground arith
]

IsDead-update_rows :
    (token : String) (p : SessionRow → Bool) (rows : List SessionRow)
    → IsDead token rows
    → IsDead token (update_rows p (λ r. record r { active = false }) rows)
IsDead-update_rows token p [] h = refl
IsDead-update_rows token p (r ∷ rs) h =
    let (e, k) = IsDead-head token r rs h in
    rw (live_if token (p r) r e) (IsDead-update_rows token p rs k)

live_set :
    (token : String) (b : Bool) (r : SessionRow)
    → (r.session_token == token) ≡ b
    → is_live token (if b then record r { active = false } else r) ≡ false
live_set token true r h = rw h refl
live_set token false r h = rw h refl

deactivated :
    (token : String) (rows : List SessionRow)
    → IsDead token
        (update_rows (λ r. r.session_token == token) (λ r. record r { active = false }) rows)
deactivated token [] = refl
deactivated token (r ∷ rs) =
    rw (live_set token (r.session_token == token) r refl) (deactivated token rs)

-- `restore_session`, by the row that is left after the old ones expire.
abbrev expired : Server → Server
expired s = record s { db = DbSessions.expire_sessions_older_than 15 s.db }

restore_session-result :
    (token : String) (s : Server)
    → (restore_session token s).0 ≡ ok (restored (get_session token (expired s).db) token)
unfolding restore_session ◌>>=◌ pure query gets update_db modify
restore_session-result token s = refl

get_session-expired :
    (token : String) (s : Server)
    → IsDead token s.db.sessions.rows
    → get_session token (expired s).db ≡ none
unfolding get_session DbSessions.expire_sessions_older_than
get_session-expired token s h = IsDead-update_rows token (is_older 15 s.db.now) s.db.sessions.rows h

end_session-IsDead :
    (u token : String) (s : Server)
    → Dict.get u s.sessions ≡ some token
    → (token == "") ≡ false
    → IsDead token (end_session u s).1.db.sessions.rows
unfolding end_session ◌>>=◌ pure gets update_db modify deactivate_session
end_session-IsDead u token s h k = rw (h, k) (deactivated token s.db.sessions.rows)

abbrev pub at_time : ℕ → String → Server → Server
at_time now now_text s = record s { db = record s.db { now = now; now_text = now_text } }

-- Once the session of a user has been ended, as it is when the connection closes, its token restores
-- nothing, at whatever later time; the token must not be empty, and none that uuid4 gives is.
pub restore_session-ended :
    (u token : String) (now : ℕ) (now_text : String) (s : Server)
    → Dict.get u s.sessions ≡ some token
    → (token == "") ≡ false
    → (restore_session token (at_time now now_text (end_session u s).1)).0 ≡ ok none
restore_session-ended u token now now_text s h k =
    let t = at_time now now_text (end_session u s).1 in
    restore_session-result token t
    ∙ ap (λ o. ok (restored o token))
        (get_session-expired token t (end_session-IsDead u token s h k))

abbrev fresh_row : ℕ → String → String → String → ℕ → SessionRow
fresh_row i token u r now = record {
  id = i;
  session_token = token;
  username = u;
  room_name = r;
  last_seen = now;
  active = true;
}

not_live :
    (token : String) (r : SessionRow) → (r.session_token == token) ≡ false → is_live token r ≡ false
not_live token r h = rw h refl

-- No row but the last has the token.
found_last :
    (token : String) (p : SessionRow → Bool) (rows : List SessionRow) (x : SessionRow)
    → (x.session_token == token) ≡ true
    → x.active ≡ true
    → find_row (is_live token) (
        update_rows p
          (λ r. record r { active = false })
          (keep_if (λ r. not (r.session_token == token)) rows ++ x ∷ []))
      ≡ (if p x then none else some x)
found_last token p [] x h k = elim (Bool-cases (p x)) [
  | inl e ↦ rw (e, h) refl
  | inr e ↦ rw (e, h, k) refl
]
found_last token p (r ∷ rs) x h k = elim (Bool-cases (r.session_token == token)) [
  | inl e ↦ rw e (found_last token p rs x h k)
  | inr e ↦ rw (e, live_if token (p r) r (not_live token r e)) (found_last token p rs x h k)
]

-- A new session can be restored for fifteen minutes, to the microsecond, as the user and room that
-- it was made for, if it is not ended before; after that it cannot.
pub restore_session-created :
    (env : Env) (u r : String) (now : ℕ) (now_text : String) (s : Server)
    → (restore_session env.uuid (at_time now now_text (create_session env u r s).1)).0
      ≡ ok (
          if ltb (s.db.now + 15 * 60_000_000) now
          then none
          else some (record { username = u; room_name = r; session_token = env.uuid }))
unfolding create_session ◌>>=◌ pure update_db modify get_session
    DbSessions.expire_sessions_older_than DbSessions.create_session
restore_session-created env u r now now_text s =
    let t = at_time now now_text (create_session env u r s).1 in
    restore_session-result env.uuid t
    ∙ ap (λ o. ok (restored o env.uuid))
        (found_last env.uuid (is_older 15 now) s.db.sessions.rows
          (fresh_row s.db.sessions.next_id env.uuid u r s.db.now) (beq_refl env.uuid) refl)
    ∙ by_age (ltb (s.db.now + 15 * 60_000_000) now)
  where
    by_age :
        (b : Bool)
        → ok (
            restored
              (if b then none else some (fresh_row s.db.sessions.next_id env.uuid u r s.db.now))
              env.uuid)
          ≡ ok (
              if b
              then none
              else some (record { username = u; room_name = r; session_token = env.uuid }))
    by_age true = refl
    by_age false = refl
