-- ===== src/Api/LocalWorker/Found.antt =====
-- localworker.go: the worker that `DiscoverLocalWorker` finds.
use korai_sdk_go.Prelude.{
  some-injective, String, ◌≡◌, ap, sym, ◌∙◌, true, some, take, nat_eq, ◌<>◌, trim_right_slashes,
  Bool-cases, Option-cases, inl, inr, arith,
}
use korai_sdk_go.Stream.{Text, chars}
use korai_sdk_go.Api.LocalWorker.{
  LocalWorkerInfo, WorkerLibrary, contains_text, Probe, bad_url, no_answer, health, health_limit,
  is_healthy, read_local_worker, local_worker_healthy, probed, discover_local_worker,
}

-- An answer with status 200 whose first 256 bytes have "ok" in quotes.
abbrev pub SaysOk : Probe → Type 0
SaysOk p =
    (body : Text) × (p ≡ health 200 body)
    × (contains_text (take health_limit body) (chars "\"ok\"") ≡ true)

is_healthy-SaysOk : (p : Probe) → is_healthy p ≡ true → SaysOk p
unfolding is_healthy
is_healthy-SaysOk bad_url h = absurd (ground (arith, h))
is_healthy-SaysOk no_answer h = absurd (ground (arith, h))
is_healthy-SaysOk (health status body) h = elim (Bool-cases (nat_eq status 200)) [
  | inl e ↦ (body, ap (λ n. health n body) (ground (arith, e)), rw (e, is_healthy) at h)
  | inr e ↦ absurd (ground (arith, rw (e, is_healthy) at h))
]

module _ (L : WorkerLibrary) {State : Type 0} (get : State → String → Probe × State) where
  -- A worker that is discovered is the advertised one, and its health request has been answered
  -- with status 200 and "ok" within the first 256 bytes.
  pub discover_local_worker-SaysOk :
      (st : State) (info : LocalWorkerInfo)
      → (discover_local_worker L get st).0 ≡ some info
      → (read_local_worker L ≡ some info)
        × SaysOk (get st (trim_right_slashes info.url <> "/health")).0
  unfolding discover_local_worker probed local_worker_healthy
  discover_local_worker-SaysOk st info h = elim (Option-cases (read_local_worker L)) [
    | inl q ↦ absurd (ground (arith, rw (q, probed) at h))
    | inr (x, q) ↦
        elim (Bool-cases (is_healthy (get st (trim_right_slashes x.url <> "/health")).0)) [
          | inr e ↦ absurd (ground (arith, rw (q, e, probed) at h))
          | inl e ↦
              let same : x ≡ info = some-injective (rw (q, e, probed) at h) in
              (
                q ∙ ap (λ y. some y) same,
                is_healthy-SaysOk _ (
                    ap
                      (λ (y : LocalWorkerInfo).
                        is_healthy (get st (trim_right_slashes y.url <> "/health")).0)
                      (sym same)
                    ∙ e),
              )
        ]
  ]
