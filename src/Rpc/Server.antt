-- ===== src/Rpc/Server.antt =====
-- extent_smain.cc: the extent server behind the RPC library, and its numbers (extent_protocol.h).
-- `reg1`, which files a handler under a number, is in a binary.
use se.Base.{
  ℕ, ◌≤◌, ◌≡◌, ◌≢◌, refl, ap, ◌∙◌, Bytes, Bool, arith, some, Option, M, pure, ◌>>=◌, length,
}
use se.Disk.{Store}
use se.BlockManager.Count.{free_count}
use se.InodeManager.{Attr}
use se.InodeManager.Data.{max_size}
use se.InodeManager.Stores.{blocks_for}
use se.Spec.{File}
use se.Extent.{Status, server_get, server_getattr, server_put, server_remove}
use se.Extent.State.{view, IsGood}
use se.Extent.Operations.{server_put-put_file, server_get-view}
use se.Rpc.{ℤ, Marshall, Unmarshall, header_size}
use se.Rpc.Wire.{Wire, WireLaws}
use se.Rpc.Calls.{call_one, call_two}
use se.Rpc.Handlers.{Handler, handle_one, handle_two}
use se.Rpc.Transparency.{Delivers, SaysDone, call_one-handle_one}
use se.Rpc.Arguments.{call_two-handle_two}

-- extent_protocol::rpc_numbers
abbrev pub put_number : ℕ
put_number = 0x6001

abbrev pub get_number : ℕ
get_number = 0x6002

abbrev pub getattr_number : ℕ
getattr_number = 0x6003

abbrev pub remove_number : ℕ
remove_number = 0x6004

-- The numbers of extent_protocol::xxstatus.
abbrev pub status_code : Status → ℤ
status_code Status.ok = ℤ.pos 0
status_code Status.rpcerr = ℤ.pos 1
status_code Status.noent = ℤ.pos 2
status_code Status.ioerr = ℤ.pos 3
status_code Status.exist = ℤ.pos 4

-- The methods as `reg` sees them: the last argument is the variable for the result. `put` and
-- `remove` leave it as it is.
abbrev pub get_method : ℕ → Bytes → M Store (ℤ × Bytes)
get_method id old = do (r, buf) ← server_get id; pure (status_code r, buf)

abbrev pub getattr_method : ℕ → Attr → M Store (ℤ × Attr)
getattr_method id old = do (r, a) ← server_getattr id; pure (status_code r, a)

abbrev pub put_method : ℕ → Bytes → ℕ → M Store (ℤ × ℕ)
put_method id buf old = do r ← server_put id buf; pure (status_code r, old)

abbrev pub remove_method : ℕ → ℕ → M Store (ℤ × ℕ)
remove_method id old = do r ← server_remove id; pure (status_code r, old)

module _ (okdone : Unmarshall → Bool) (id_wire number : Wire ℕ) (string : Wire Bytes)
    (attributes : Wire Attr) where
  abbrev pub get_handler : Handler Store
  get_handler = handle_one okdone string id_wire get_method

  abbrev pub getattr_handler : Handler Store
  getattr_handler = handle_one okdone attributes id_wire getattr_method

  abbrev pub put_handler : Handler Store
  put_handler = handle_two okdone number id_wire string put_method

  abbrev pub remove_handler : Handler Store
  remove_handler = handle_one okdone number id_wire remove_method

  -- The registrations of `main`.
  unfoldable pub register : {T : Type 0} → (ℕ → Handler Store → T → T) → T → T
  register reg1 server =
      let server = reg1 get_number get_handler server in
      let server = reg1 getattr_number getattr_handler server in
      let server = reg1 put_number put_handler server in reg1 remove_number remove_handler server

  -- A table of handlers: a number has the handler that was filed last under it.
  pub record TableLaws {T : Type 0} (reg1 : ℕ → Handler Store → T → T)
      (handler_of : T → ℕ → Option (Handler Store)) : Type 0 where
    pub here : (p : ℕ) (h : Handler Store) (t : T) → handler_of (reg1 p h t) p ≡ some h
    pub elsewhere :
        (p q : ℕ) (h : Handler Store) (t : T) → q ≢ p → handler_of (reg1 p h t) q ≡ handler_of t q

  -- After `main`, each of the four numbers has the handler of its own operation; every other number
  -- has what it had before, so there is none for `create`.
  pub register-handlers :
      {T : Type 0} (reg1 : ℕ → Handler Store → T → T) (handler_of : T → ℕ → Option (Handler Store))
      (t : T) (q : ℕ)
      → TableLaws reg1 handler_of
      → q ≢ get_number
      → q ≢ getattr_number
      → q ≢ put_number
      → q ≢ remove_number
      → (handler_of (register reg1 t) get_number ≡ some get_handler)
        × (handler_of (register reg1 t) getattr_number ≡ some getattr_handler)
        × (handler_of (register reg1 t) put_number ≡ some put_handler)
        × (handler_of (register reg1 t) remove_number ≡ some remove_handler)
        × (handler_of (register reg1 t) q ≡ handler_of t q)
  unfolding register
  register-handlers reg1 handler_of t q l a b c d = (
    l.elsewhere remove_number get_number remove_handler _ (λ e. ground arith)
        ∙ l.elsewhere put_number get_number put_handler _ (λ e. ground arith)
        ∙ l.elsewhere getattr_number get_number getattr_handler _ (λ e. ground arith)
        ∙ l.here get_number get_handler t,
    l.elsewhere remove_number getattr_number remove_handler _ (λ e. ground arith)
        ∙ l.elsewhere put_number getattr_number put_handler _ (λ e. ground arith)
        ∙ l.here getattr_number getattr_handler _,
    l.elsewhere remove_number put_number remove_handler _ (λ e. ground arith)
        ∙ l.here put_number put_handler _,
    l.here remove_number remove_handler _,
    l.elsewhere remove_number q remove_handler _ d
        ∙ l.elsewhere put_number q put_handler _ c
        ∙ l.elsewhere getattr_number q getattr_handler _ b
        ∙ l.elsewhere get_number q get_handler t a,
  )

  module _ (call1 : ℕ → Marshall → Unmarshall → ℕ → M Store (ℤ × Unmarshall))
      (ids : WireLaws id_wire) (numbers : WireLaws number) (strings : WireLaws string) where
    put_runs :
        (id : ℕ) (buf : Bytes) (old : ℕ) (s : Store) {t : Store}
        → server_put id buf s ≡ some (Status.ok, t)
        → put_method id buf old s ≡ some ((ℤ.pos 0, old), t)
    put_runs id buf old s e = ground (arith, e)

    get_runs :
        (id : ℕ) (buf old : Bytes) (s : Store) {t : Store}
        → server_get id s ≡ some ((Status.ok, buf), t)
        → get_method id old s ≡ some ((ℤ.pos 0, buf), t)
    get_runs id buf old s e = ground (arith, e)

    -- On a good disk that holds a file under the id, a remote `put` of a string and then a remote
    -- `get` of the same id both answer OK, the string comes back, and the disk stays good. The
    -- library delivers the messages to the two handlers, the id, the string and a blank number can
    -- be carried, and the string fits on the disk.
    pub remote_get-remote_put :
        (memory : Bytes) (id to : ℕ) (buf : Bytes) (f : File) (s : Store)
        → SaysDone okdone
        → Delivers call1 put_number put_handler
        → Delivers call1 get_number get_handler
        → header_size ≤ length memory
        → ids.Fits id
        → strings.Fits buf
        → numbers.Fits number.blank
        → IsGood s
        → view s id ≡ some f
        → length buf ≤ max_size
        → blocks_for (length buf) ≤ free_count s
        → (t u : Store) × (call_two call1 okdone memory number id_wire string put_number id buf
              number.blank to s
            ≡ some ((ℤ.pos 0, number.blank), t))
          × (call_one call1 okdone memory string id_wire get_number id string.blank to t
              ≡ some ((ℤ.pos 0, buf), u))
          × IsGood u
    remote_get-remote_put memory id to buf f s done puts gets room fits fits' blank g e small free =
        let file : File = record f { content = buf } in
        let (t, put, good, files, _, _) = server_put-put_file s id f buf g e small free in
        let there : view t id ≡ some file = ap (λ v. v id) files ∙ ground arith in
        let (u, got, good', _, _, _) = server_get-view t id file good there in
        (
          t,
          u,
          call_two-handle_two call1 okdone numbers memory put_number to ids strings put_method id
              buf (ℤ.pos 0) number.blank s t done puts room fits fits' blank refl
              (put_runs id buf number.blank s put),
          call_one-handle_one call1 okdone strings ids memory get_method get_number to id (ℤ.pos 0)
              buf t u done gets room fits fits' refl (get_runs id buf string.blank t got),
          good',
        )
