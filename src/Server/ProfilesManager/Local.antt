-- ===== src/Server/ProfilesManager/Local.antt =====
-- server/ProfilesManager.cpp: the parts that send, close, read or store, over a property of the objects
-- and the map.
use twitter_like_client_serv.Base.{
  ℕ, ◌≡◌, refl, Option, none, some, List, [], ◌∷◌, Str, get_elem?, Option-cases, inl, inr,
}
use twitter_like_client_serv.Exec.{bind, lift, Keeps, Ends-bind}
use twitter_like_client_serv.Packet.{Packet, CmdType, of_cmd}
use twitter_like_client_serv.Connection
use twitter_like_client_serv.Server.Profile.{Session, send_or_insert_inbox}
use twitter_like_client_serv.Server.Document.{entries, to_doc}
use twitter_like_client_serv.Server.World.{
  Pointer, World, Doc, Json, deref, update_sending, send_packet, close,
}
use twitter_like_client_serv.Server.ProfilesManager.{
  refuse, store, save, to_json_file, close_sessions, close_each, send_close_conn_to_all,
  send_to_each, send_to_followers_of,
}

-- A property that reads the objects and the map, and nothing else.
abbrev pub IsLocal : (World → Type 0) → Type 0
IsLocal P = (w v : World) → v.heap ≡ w.heap → v.profiles ≡ w.profiles → P w → P v

-- A property that does not read the connections, the file or the router's state.
abbrev pub IsQuiet : (World → Type 0) → Type 0
IsQuiet P =
    (w v : World)
    → v.heap ≡ w.heap
    → v.profiles ≡ w.profiles
    → v.num_readers ≡ w.num_readers
    → v.num_writers ≡ w.num_writers
    → P w
    → P v

pub quiet : (P : World → Type 0) → IsLocal P → IsQuiet P
quiet P local w v heap profiles readers writers = local w v heap profiles

module _ (P : World → Type 0) (calm : IsQuiet P) where
  pub send_packet-Keeps : (conn : Session) (packet : Packet) → Keeps P (send_packet conn packet)
  unfolding send_packet
  send_packet-Keeps none packet w r = tt
  send_packet-Keeps (some conn) packet w r =
      elim (Option-cases (Connection.send_packet conn packet w.net)) [
        | inl e ↦ rw (e, bind) tt
        | inr (net', e) ↦ rw (e, bind) (calm w _ refl refl refl refl r)
      ]

  pub close-Keeps : (conn : Session) → Keeps P (close conn)
  unfolding close
  close-Keeps none w r = tt
  close-Keeps (some conn) w r = calm w _ refl refl refl refl r

  pub deref-Keeps : (i : Pointer) → Keeps P (deref i)
  unfolding deref
  deref-Keeps none w r = tt
  deref-Keeps (some i) w r = elim (Option-cases (get_elem? w.heap i)) [
    | inl e ↦ rw (e, lift) tt
    | inr (p, e) ↦ rw (e, lift) r
  ]

  pub refuse-Keeps : (conn : Session) → Keeps P (refuse conn)
  unfolding refuse
  refuse-Keeps conn w r =
      Ends-bind P _ _ (send_packet-Keeps conn (of_cmd w.now CmdType.close_conn) w r)
        λ _ v s. Ends-bind P _ _ (close-Keeps conn v s) λ _ u t. t

  store-Keeps : (reached : Str) (text : Option Str) → Keeps P (store reached text)
  unfolding store
  store-Keeps reached none w r = calm w _ refl refl refl refl r
  store-Keeps reached (some text) w r = calm w _ refl refl refl refl r

  pub save-Keeps : ⦃json : Json⦄ → (d : Doc) → Keeps P (save d)
  unfolding save
  save-Keeps ⦃json⦄ d w r = store-Keeps (json.reached d) (json.dump d) w r

  pub to_json_file-Keeps : ⦃json : Json⦄ → Keeps P to_json_file
  unfolding to_json_file
  to_json_file-Keeps ⦃json⦄ w r = elim (Option-cases (entries w.heap w.profiles)) [
    | inl e ↦ rw (e, bind) tt
    | inr (es, e) ↦ rw (e, bind) (save-Keeps (to_doc es) w r)
  ]

  close_sessions-Keeps : (ss : List Session) → Keeps P (close_sessions ss)
  unfolding close_sessions
  close_sessions-Keeps [] w r = r
  close_sessions-Keeps (conn ∷ ss) w r =
      Ends-bind P _ _ (send_packet-Keeps conn (of_cmd w.now CmdType.close_conn) w r)
        λ _ v s. Ends-bind P _ _ (close-Keeps conn v s) λ _ u t. close_sessions-Keeps ss u t

  close_each-Keeps : (m : List (Str × ℕ)) → Keeps P (close_each m)
  unfolding close_each
  close_each-Keeps [] w r = r
  close_each-Keeps ((id, i) ∷ m) w r =
      Ends-bind P _ _ (deref-Keeps (some i) w r) λ p v s.
        Ends-bind P _ _ (close_sessions-Keeps p.sessions v s) λ _ u t. close_each-Keeps m u t

  pub send_close_conn_to_all-Keeps : Keeps P send_close_conn_to_all
  unfolding send_close_conn_to_all
  send_close_conn_to_all-Keeps w r = close_each-Keeps w.profiles w r

  -- What each delivery keeps, a message to all followers keeps.
  module _ (packet : Packet)
      (delivers : (i : ℕ) → Keeps P (update_sending (some i) (send_or_insert_inbox packet))) where
    send_to_each-Keeps : (is : List ℕ) → Keeps P (send_to_each packet is)
    unfolding send_to_each
    send_to_each-Keeps [] w r = r
    send_to_each-Keeps (i ∷ is) w r =
        Ends-bind P _ _ (delivers i w r) λ _ v s. send_to_each-Keeps is v s

    pub send_to_followers_of-Keeps :
        (profile : Pointer) → Keeps P (send_to_followers_of profile packet)
    unfolding send_to_followers_of
    send_to_followers_of-Keeps profile w r =
        Ends-bind P _ _ (deref-Keeps profile w r) λ p v s. send_to_each-Keeps p.followers v s
