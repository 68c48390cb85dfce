-- ===== src/Service/Closed/Connection.antt =====
-- A whole connection, from the handshake to the end, keeps a property that is closed under the writes.
use g04_final_project_d_25_c.Prelude.{ℕ, zero, suc, String, Option, none, some, [], ◌∷◌}
use g04_final_project_d_25_c.Dict.{Dict}
use g04_final_project_d_25_c.Exec.{
  Result, ok, err, Exec, PyError, value_error, internal_error, Keeps, Keeps-modify, Keeps-pure,
  Keeps-raise, Keeps-bind, Keeps-catch, keeps_rules, modify, pure, within,
}
use g04_final_project_d_25_c.Database.{Database}
use g04_final_project_d_25_c.Database.Users.{set_user_password}
use g04_final_project_d_25_c.Protocol.{Packet, PacketType, Field}
use g04_final_project_d_25_c.Auth
use g04_final_project_d_25_c.Server.{Server, Env, on_db, set_db}
use g04_final_project_d_25_c.Server.Sessions.{Restored}
use g04_final_project_d_25_c.Server.Closed
use g04_final_project_d_25_c.Service.Handshake
use g04_final_project_d_25_c.Service.Handshake.{Step, again, done, Stream}
use g04_final_project_d_25_c.Service.Closed.Writes.{ClosedWrites, service_rules}
use g04_final_project_d_25_c.Service.Closed.Handlers

module _ {ℓ} {P : Server → Type ℓ} (w : ClosedWrites P) where
  open w use {base}

  -- The server with another database in its place.
  abbrev With : Server → Database → Type ℓ
  With s d = P (set_db d s)

  on_db-Keeps {κ} :
      {A : Type κ} (m : Exec Database A) → ((s : Server) → Keeps (With s) m) → Keeps P (on_db m)
  unfolding on_db within
  on_db-Keeps m k = record { after = λ s h. (k s).after s.db h }

  set_user_password-Keeps : (s : Server) (u h : String) → Keeps (With s) (set_user_password u h)
  unfolding on_db within
  set_user_password-Keeps s u h = record { after = λ d p. (w.at_password u h).after (set_db d s) p }

  lift-Keeps {κ} : {A : Type κ} (s : Server) (r : Result A) → Keeps (With s) (Auth.lift r)
  lift-Keeps s (ok a) = Keeps-pure a
  lift-Keeps s (err e) = Keeps-raise e

  register-Keeps : (e : Env) (u p : String) → Keeps P (on_db (Auth.register e u p))
  unfolding Auth.register
  register-Keeps e u p =
      on_db-Keeps _
        (λ s. search (keeps_rules, lift-Keeps {A = String} s, set_user_password-Keeps s) depth 14)

  authenticate-Keeps : (e : Env) (u p : String) → Keeps P (on_db (Auth.authenticate e u p))
  unfolding Auth.authenticate
  authenticate-Keeps e u p =
      on_db-Keeps _ (λ s. search (keeps_rules, lift-Keeps {A = String} s) depth 14)

  send_packet-Keeps :
      (n : ℕ) (k : PacketType) (d : Dict String Field) → Keeps P (Handshake.send_packet n k d)
  unfolding Handshake.send_packet
  send_packet-Keeps n k d = Closed.transmit-Keeps base n k d

  send_auth_failed-Keeps : (n : ℕ) (t : String) → Keeps P (Handshake.send_auth_failed n t)
  unfolding Handshake.send_auth_failed
  send_auth_failed-Keeps n t = send_packet-Keeps n _ _

  or_failed-Keeps : (n : ℕ) (e : PyError) → Keeps P (Handshake.or_failed n e)
  or_failed-Keeps n (value_error t) = search (keeps_rules, send_auth_failed-Keeps)
  or_failed-Keeps n internal_error = Keeps-raise _

  attempt-Keeps : (n : ℕ) (m : Exec Server String) → Keeps P m → Keeps P (Handshake.attempt n m)
  attempt-Keeps n m k = search (keeps_rules, or_failed-Keeps)

  report_registered-Keeps : (n : ℕ) (o : Option String) → Keeps P (Handshake.report_registered n o)
  report_registered-Keeps n none = Keeps-pure _
  report_registered-Keeps n (some u) = search (keeps_rules, send_packet-Keeps)

  handle_register-Keeps : (e : Env) (n : ℕ) (p : Packet) → Keeps P (Handshake.handle_register e n p)
  unfolding Handshake.handle_register
  handle_register-Keeps e n p =
      Keeps-bind _ _ (attempt-Keeps n _ (register-Keeps e _ _)) (report_registered-Keeps n)

  send_welcome-Keeps : (n : ℕ) (u t r g : String) → Keeps P (Handshake.send_welcome n u t r g)
  unfolding Handshake.send_welcome
  send_welcome-Keeps n u t r g = search (keeps_rules, send_packet-Keeps)

  sign_in-Keeps : (e : Env) (n : ℕ) (o : Option String) → Keeps P (Handshake.sign_in e n o)
  unfolding Handshake.sign_in
  sign_in-Keeps e n none = Keeps-pure _
  sign_in-Keeps e n (some u) =
      search
        (
          service_rules, send_auth_failed-Keeps, Closed.add_client-Keeps,
          Closed.create_session-Keeps, send_welcome-Keeps, Handlers.register_client-Keeps,
        )
        depth 16

  handle_login-Keeps : (e : Env) (n : ℕ) (p : Packet) → Keeps P (Handshake.handle_login e n p)
  unfolding Handshake.handle_login
  handle_login-Keeps e n p =
      Keeps-bind _ _ (attempt-Keeps n _ (authenticate-Keeps e _ _)) (sign_in-Keeps e n)

  resume-Keeps : (n : ℕ) (o : Option Restored) → Keeps P (Handshake.resume n o)
  unfolding Handshake.resume
  resume-Keeps n none = search (keeps_rules, send_auth_failed-Keeps)
  resume-Keeps n (some r) =
      search
        (
          service_rules, send_auth_failed-Keeps, Closed.add_client-Keeps, send_welcome-Keeps,
          Handlers.register_client-Keeps,
        )
        depth 16

  handle_reconnect-Keeps : (n : ℕ) (p : Packet) → Keeps P (Handshake.handle_reconnect n p)
  unfolding Handshake.handle_reconnect
  handle_reconnect-Keeps n p =
      search (service_rules, Closed.restore_session-Keeps, resume-Keeps) depth 8

  ruleset handshake_rules = (
    keeps_rules, handle_register-Keeps, handle_login-Keeps, handle_reconnect-Keeps,
    send_auth_failed-Keeps,
  )

  pub handshake_step-Keeps :
      (e : Env) (n : ℕ) (t : Option PacketType) (p : Packet)
      → Keeps P (Handshake.handshake_step e n t p)
  unfolding Handshake.handshake_step
  handshake_step-Keeps e n none p = search handshake_rules
  handshake_step-Keeps e n (some PacketType.register) p = search handshake_rules
  handshake_step-Keeps e n (some _) p = search handshake_rules

  next-Keeps :
      (n k : ℕ) (l : Stream) (v : Step)
      → Keeps P (Handshake.authenticate_loop n k l)
      → Keeps P (elim v [ again ↦ Handshake.authenticate_loop n k l | done name ↦ pure (name, l) ])
  next-Keeps n k l again ih = ih
  next-Keeps n k l (done name) ih = Keeps-pure _

  authenticate_loop-Keeps : (n k : ℕ) (l : Stream) → Keeps P (Handshake.authenticate_loop n k l)
  unfolding Handshake.authenticate_loop
  authenticate_loop-Keeps zero k l = search (keeps_rules, send_auth_failed-Keeps)
  authenticate_loop-Keeps (suc n) k [] = Keeps-pure _
  authenticate_loop-Keeps (suc n) k ((e, p) ∷ l) =
      Keeps-bind _ _ (handshake_step-Keeps e k _ p)
        (λ v. next-Keeps n k l v (authenticate_loop-Keeps n k l))

  serve_packets-Keeps : (u : String) (l : Stream) → Keeps P (Handshake.serve_packets u l)
  unfolding Handshake.serve_packets
  serve_packets-Keeps u [] = Keeps-pure _
  serve_packets-Keeps u ((e, p) ∷ l) =
      Keeps-bind _ _ (Handlers.route_packet-Keeps w e p u) (λ _. serve_packets-Keeps u l)

  close-Keeps : (n : ℕ) → Keeps P (modify (Handshake.close n))
  unfolding Handshake.close
  close-Keeps n = Keeps-modify _ (λ s h. w.at_writable _ s h)

  pub finish-Keeps : (n : ℕ) (u : String) → Keeps P (Handshake.finish n u)
  unfolding Handshake.finish
  finish-Keeps n u = Keeps-bind _ _ (Handlers.unregister_client-Keeps w u) (λ _. close-Keeps n)

  serve_client-Keeps :
      (n : ℕ) (o : Option String) (l : Stream) → Keeps P (Handshake.serve_client n (o, l))
  serve_client-Keeps n none l = close-Keeps n
  serve_client-Keeps n (some u) l = search (keeps_rules, serve_packets-Keeps, finish-Keeps)

  -- Whatever a client sends, and in whatever order.
  pub handle_client-Keeps : (n : ℕ) (l : Stream) → Keeps P (Handshake.handle_client n l)
  unfolding Handshake.handle_client
  handle_client-Keeps n l =
      Keeps-bind _ _ (Keeps-catch _ _ (authenticate_loop-Keeps 5 n l) (λ e. Keeps-pure _))
        (λ (o, k). serve_client-Keeps n o k)
