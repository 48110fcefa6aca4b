-- ===== src/Synchub/Client/Oversized.antt =====
-- session/synchub/client.go and sync.go: blocks at the limit of `GetBlock`.
use korai_sdk_go.Prelude.{
  ℕ, zero, suc, ◌≤◌, ◌<◌, String, ◌≡◌, ◌≢◌, refl, ap, ◌∙◌, true, false, none, some, [], ◌∷◌, length,
  take, leb, arith, Option-cases, inl, inr, ◌<>◌,
}
use korai_sdk_go.Session.Merge.{contains}
use korai_sdk_go.Synchub.{Bytes, ManifestEntry, Store, Disk, Library, Syncer}
use korai_sdk_go.Synchub.Apply.{apply_block}
use korai_sdk_go.Synchub.Apply.Block.{apply_block_mismatch}
use korai_sdk_go.Synchub.Client.{
  HubRequest, HubBody, HubResponse, Transport, HttpLibrary, Client, got, max_block_bytes,
  read_limited, new_request, get_block, block_answer, to_option, client_hub,
}

length-take : (n : ℕ) (b : Bytes) → length (take n b) ≤ n
length-take zero b = omega arith
length-take (suc n) [] = omega arith
length-take (suc n) (x ∷ b) = omega (arith, length-take n b)

length-read_limited : (n : ℕ) (b : HubBody) (d : Bytes) → read_limited n b ≡ some d → length d ≤ n
unfolding read_limited
length-read_limited n b d h = ground (arith, h, length-take n b.content)

module _ (L : HttpLibrary) (T : Transport) (c : Client) where
  length-block_answer :
      (r : HubResponse) (d : Bytes) → block_answer L T c r ≡ got d → length d ≤ max_block_bytes
  unfolding block_answer
  length-block_answer r d h = elim (Option-cases (read_limited max_block_bytes r.body)) [
    | inl e ↦ absurd (ground (arith, e, h))
    | inr (b, e) ↦ length-read_limited max_block_bytes r.body d (ground (arith, e, h))
  ]

  block_answer-cut :
      (r : HubResponse)
      → r.status_code ≡ 200
      → max_block_bytes < length r.body.content
      → block_answer L T c r ≡ got (take max_block_bytes r.body.content)
  unfolding block_answer read_limited
  block_answer-cut r ok long =
      let more : leb max_block_bytes (length r.body.content) ≡ true = ground (arith, long) in
      rw (ok, more, block_answer, read_limited) refl

  block_url : String → String
  block_url hash = c.base <> ("/blocks/" <> L.path_escape hash)

  -- No fetched block is longer than 32 MiB, whatever the hub sends.
  pub get_block-bounded :
      (st st' : T.State) (hash : String) (d : Bytes)
      → get_block L T c st hash ≡ (got d, st')
      → length d ≤ max_block_bytes
  unfolding get_block block_url
  get_block-bounded st st' hash d h =
      elim (Option-cases (new_request L T c "GET" (block_url hash) none)) [
        | inl e ↦ absurd (ground (arith, e, h))
        | inr (r, e) ↦ elim (Option-cases (T.send st r).0) [
          | inl f ↦ absurd (ground (arith, e, f, h))
          | inr (resp, f) ↦ length-block_answer resp d (ap (λ p. p.0) (rw (e, f, get_block) at h))
        ]
      ]

  -- A block that the hub serves with more than 32 MiB is cut at the limit, and what is left does
  -- not have the hash of the manifest: applying the block fails, and nothing changes but the hub.
  pub apply_block_oversized :
      {S : Store} {D : Disk} (Y : Library) (e : ManifestEntry) (s : Syncer S (client_hub L T c) D)
      (req : HubRequest) (resp : HubResponse) (st : T.State)
      → contains s.have e.block_hash ≡ false
      → new_request L T c "GET" (c.base <> ("/blocks/" <> L.path_escape e.block_hash)) none
        ≡ some req
      → T.send s.hub req ≡ (some resp, st)
      → resp.status_code ≡ 200
      → max_block_bytes < length resp.body.content
      → Y.hash_ciphertext (take max_block_bytes resp.body.content) ≢ e.block_hash
      → apply_block Y e s ≡ (false, record s { hub = st })
  unfolding get_block
  apply_block_oversized Y e s req resp st fresh built sent ok long differs =
      let answer : get_block L T c s.hub e.block_hash
          ≡ (got (take max_block_bytes resp.body.content), st) =
        rw (built, ap (λ p. p.0) sent, block_answer-cut resp ok long, get_block)
          (ap (λ p. (got (take max_block_bytes resp.body.content), p.1)) sent) in
      apply_block_mismatch Y e s (take max_block_bytes resp.body.content) fresh
        (ap (λ p. to_option p.0) answer) differs
      ∙ ap (λ p. (false, record s { hub = p.1 })) answer
