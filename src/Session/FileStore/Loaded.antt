-- ===== src/Session/FileStore/Loaded.antt =====
-- session/store.go: what `Save` leaves in the file of a session.
use mathlib.Core.Path.{subst}
use korai_sdk_go.Prelude.{
  ℕ, ◌<◌, String, ◌≡◌, refl, ap, sym, ◌∙◌, true, false, Option, none, some, List, [], ◌∷◌, ◌++◌,
  All, All-of_append, append-nil, drop, drop-length-append, length, length-append, ltb, arith,
  Bool-cases, ◌⊎◌, inl, inr,
}
use korai_sdk_go.Session.{Session, SessionMessage}
use korai_sdk_go.Session.FileStore.{
  Bytes, Header, Codec, missing, file, Directory, FileLibrary, file_name, Saving, unlines,
  header_of, write_messages, loaded, load, rewritten, rewrite, append_messages, save_over, save,
}
use korai_sdk_go.Session.FileStore.Lines.{unlines-append}
use korai_sdk_go.Session.FileStore.Saved.{
  ReadsBack, IsReadable, Encodes-append, write_messages-Encodes,
}
use korai_sdk_go.Session.FileStore.Held.{
  IsDirectory, Holds, Holds-kept, count_messages-Holds, load-Holds, read-written,
}

module _ (L : FileLibrary) (codec : Codec) (F : Directory) (readable : IsReadable L codec)
    (lawful : IsDirectory F) where
  rewritten-Holds :
      (x : Session) (s : Saving F) (t : ℕ) (header : Option Bytes)
      → All (ReadsBack L) x.messages
      → L.marshal_header (header_of L codec x) ≡ header
      → F.read s.dir (file_name x.id) ≡ file [] t
      → (rewritten L codec F (file_name x.id) header x.messages s).0 ≡ true
      → Holds L codec F
          (rewritten L codec F (file_name x.id) header x.messages s).1.dir
          x.id
          (header_of L codec x)
          x.messages
  unfolding rewritten
  rewritten-Holds x s t none back e r h = absurd (ground (arith, h))
  rewritten-Holds x s t (some first) back e r h =
      let out = write_messages L codec x.messages s.nonces in
      let (all, (t', there)) =
        read-written L codec F lawful (file_name x.id) (first ∷ out.0) out.1 out.2 s.dir [] t r h in
      record {
        first = first;
        lines = out.0;
        modified = t';
        read = there;
        line = readable.line-marshal_header (header_of L codec x) first e;
        header = readable.unmarshal-marshal_header (header_of L codec x) first e;
        kind = refl;
        named = readable.codec_for-name;
        encodes = write_messages-Encodes L codec readable x.messages s.nonces back all;
      }

  rewrite-Holds :
      (x : Session) (s : Saving F)
      → All (ReadsBack L) x.messages
      → (rewrite L codec F x s).0 ≡ true
      → Holds L codec F (rewrite L codec F x s).1.dir x.id (header_of L codec x) x.messages
  unfolding rewrite
  rewrite-Holds x s back h =
      let name = file_name x.id in
      let made = F.create s.dir name in
      elim (Bool-cases made.0) [
        | inr e ↦ absurd (ground (arith, e))
        | inl e ↦ elim (Bool-cases (F.chmod made.1 name).0) [
          | inr f ↦ absurd (ground (arith, e, f))
          | inl f ↦
              let (t, empty) = lawful.read-create s.dir name e in
              let s' = record s { dir = (F.chmod made.1 name).1 } in
              rw (e, f, rewrite)
                (rewritten-Holds x s' t (L.marshal_header (header_of L codec x)) back refl
                  (lawful.read-chmod made.1 name f ∙ empty) (rw (e, f, rewrite) at h))
        ]
      ]

  append_messages-Holds :
      (id : String) (h : Header) (old added : List SessionMessage) (s : Saving F)
      → All (ReadsBack L) added
      → Holds L codec F s.dir id h old
      → (append_messages L codec F (file_name id) added s).0 ≡ true
      → Holds L codec F (append_messages L codec F (file_name id) added s).1.dir id h (old ++ added)
  unfolding append_messages
  append_messages-Holds id h old [] s back x ok = rw (append-nil old) x
  append_messages-Holds id h old (m ∷ ms) s back x ok =
      let out = write_messages L codec (m ∷ ms) s.nonces in
      let (all, (t', there)) =
        read-written L codec F lawful (file_name id) out.0 out.1 out.2 s.dir
          (unlines (x.first ∷ x.lines)) x.modified x.read ok in
      record {
        first = x.first;
        lines = x.lines ++ out.0;
        modified = t';
        read = there ∙ ap (λ b. file b t') (sym (unlines-append (x.first ∷ x.lines) out.0));
        line = x.line;
        header = x.header;
        kind = x.kind;
        named = x.named;
        encodes =
            Encodes-append L codec x.lines out.0 old (m ∷ ms) x.encodes
              (write_messages-Encodes L codec readable (m ∷ ms) s.nonces back all);
      }

  -- What a save finds: no file, or a file that it is to replace or to extend.
  abbrev pub Found : Session → F.State → Type 0
  Found x st =
      (F.read st (file_name x.id) ≡ missing)
      ⊎ ((h : Header) × (old : List SessionMessage) × Holds L codec F st x.id h old
          × ((length x.messages < length old)
              ⊎ ((added : List SessionMessage) × (x.messages ≡ old ++ added))))

  save_over-Holds :
      (x : Session) (s : Saving F)
      → All (ReadsBack L) x.messages
      → Found x s.dir
      → (save_over L codec F x (F.read s.dir (file_name x.id)) s).0 ≡ true
      → (h : Header) × Holds L codec F
          (save_over L codec F x (F.read s.dir (file_name x.id)) s).1.dir
          x.id
          h
          x.messages
  unfolding save_over
  save_over-Holds x s back (inl r) ok =
      rw (r, save_over) (header_of L codec x, rewrite-Holds x s back (rw (r, save_over) at ok))
  save_over-Holds x s back (inr (h, old, held, inl shorter)) ok =
      let n = count_messages-Holds L codec F s.dir x.id h old held in
      let less : ltb (length x.messages) (length old) ≡ true = ground (arith, shorter) in
      rw (held.read, n, less, save_over)
        (header_of L codec x, rewrite-Holds x s back (rw (held.read, n, less, save_over) at ok))
  save_over-Holds x s back (inr (h, old, held, inr (added, longer))) ok =
      let n = count_messages-Holds L codec F s.dir x.id h old held in
      let more : ltb (length x.messages) (length old) ≡ false =
        ground (arith, longer, length-append old added) in
      let rest : drop (length old) x.messages ≡ added =
        ap (drop (length old)) longer ∙ drop-length-append old added in
      rw (held.read, n, more, rest, save_over)
        (
          h,
          subst
              (λ ms.
                Holds L codec F (append_messages L codec F (file_name x.id) added s).1.dir x.id h
                  ms)
              (sym longer)
              (append_messages-Holds x.id h old added s
                (All-of_append (ReadsBack L) old added (subst (All (ReadsBack L)) longer back)) held
                (rw (held.read, n, more, rest, save_over) at ok)),
        )

  -- If each message is read back from its JSON as written, headers and the codec are too, and the
  -- file system does what it reports: after a save that succeeds, where there was no file, or a file
  -- that holds more messages or a first part of them, the file holds the messages, and loading gives
  -- a session with them.
  pub load-save :
      (x : Session) (s : Saving F)
      → All (ReadsBack L) x.messages
      → Found x s.dir
      → (save L codec F x s).0 ≡ true
      → (h : Header) × (t : ℕ) × Holds L codec F (save L codec F x s).1.dir x.id h x.messages
        × (load L codec F (save L codec F x s).1 x.id ≡ some (loaded L codec h t x.messages))
  unfolding save
  load-save x s back found ok = elim (Bool-cases (F.mkdir_all s.dir).0) [
    | inr e ↦ absurd (ground (arith, e))
    | inl e ↦
        let s' = record s { dir = (F.mkdir_all s.dir).1 } in
        let kept : F.read s'.dir (file_name x.id) ≡ F.read s.dir (file_name x.id) =
          lawful.read-mkdir_all s.dir (file_name x.id) e in
        let (h, held) = save_over-Holds x s' back (Found-kept kept found) (rw (e, save) at ok) in
        let (t, there) =
          load-Holds L codec F (save_over L codec F x (F.read s'.dir (file_name x.id)) s').1 x.id h
            x.messages held in
        rw (e, save) (h, t, held, there)
  ]
    where
      Found-kept :
          {a b : F.State}
          → F.read b (file_name x.id) ≡ F.read a (file_name x.id)
          → Found x a
          → Found x b
      Found-kept q (inl r) = inl (q ∙ r)
      Found-kept q (inr (h, old, held, how)) =
          inr (h, old, Holds-kept L codec F _ _ x.id h old q held, how)
