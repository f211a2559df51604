-- ===== src/Nvmalloc/Release/Insert.antt =====
-- `insertFreeLocation`: the block joins the zone, or is listed with a header of its own.
use zalloc.Base.{
  ℕ, ◌+◌, ◌-◌, ◌*◌, ◌^◌, ◌≤◌, ◌<◌, ◌≡◌, refl, true, false, ◌&&◌, inl, inr, List, Run, ok, ltb, leb,
  ◌==◌, if◌then◌else◌, arith, Bool-cases,
}
use zalloc.Nvmalloc.{base_size}
use zalloc.Nvmalloc.Header.{negate, crc_compute}
use zalloc.Nvmalloc.Free.{Nvm, put, set_word, push_hint}
use zalloc.Nvmalloc.Heap.{insert_free_location}
use zalloc.Nvmalloc.Search.Lists.{Places}
use zalloc.Nvmalloc.Take.Carve.{push_hint-Pushed, push_hint-same}

-- The run reaches the zone.
pub insert_free_location-zone :
    (crc : ℕ → ℕ → ℕ) (st : Nvm) (u f b : ℕ)
    → st.zone ≡ base_size * (u + f)
    → 0 < f
    → b ≤ u
    → base_size * (u + f) ≤ st.top
    → insert_free_location crc st (base_size * u) (base_size * f) (base_size * (f + b))
      ≡ ok (record st { zone = base_size * (u - b); word = put st.word (base_size * u) 0 })
unfolding insert_free_location
insert_free_location-zone crc st u f b zone pos low high =
    let reached : (leb (base_size * (u + f)) (base_size * u + base_size * f)
          && ltb (base_size * u) (base_size * (u + f)))
        ≡ true =
      ground arith in
    let inside : leb (base_size * u + 8) st.top ≡ true = ground arith in
    let place : base_size * u + base_size * f - base_size * (f + b) ≡ base_size * (u - b) =
      omega arith in
    rw (zone, reached, inside, place) refl

insert_free_location-ok :
    (crc : ℕ → ℕ → ℕ) (st st' st'' : Nvm) (location fw tot : ℕ) (r : Run Nvm)
    → (leb st.zone (location + fw) && ltb location st.zone) ≡ false
    → set_word st location (negate (crc_compute crc location fw)) ≡ ok st'
    → push_hint st' tot (location + fw - tot) ≡ ok st''
    → (if fw == tot then ok st'' else push_hint st'' fw location) ≡ r
    → insert_free_location crc st location fw tot ≡ r
unfolding insert_free_location
insert_free_location-ok crc st st' st'' location fw tot r apart seal first second =
    rw (apart, seal, first) second

-- The outcome where the block is listed.
pub record Listed (st : Nvm) (location header : ℕ) (r : Run Nvm) : Type 0 where
  pub lists : ℕ → List ℕ
  pub result : r ≡ ok (record st { word = put st.word location header; lists = lists })
  pub places : (i : ℕ) → Places (lists i)

-- A block ends before the zone.
pub insert_free_location-Listed :
    (crc : ℕ → ℕ → ℕ) (st : Nvm) (u f b : ℕ)
    → base_size * (u + f) < st.zone
    → 0 < f
    → b ≤ u
    → u < 2 ^ 26
    → base_size * (u + f) ≤ st.top
    → ((i : ℕ) → Places (st.lists i))
    → Listed st
        (base_size * u)
        (negate (crc_compute crc (base_size * u) (base_size * f)))
        (insert_free_location crc st (base_size * u) (base_size * f) (base_size * (f + b)))
insert_free_location-Listed crc st u f b before pos low small high all =
    let seal = negate (crc_compute crc (base_size * u) (base_size * f)) in
    let st' : Nvm = record st { word = put st.word (base_size * u) seal } in
    let apart : (leb st.zone (base_size * u + base_size * f) && ltb (base_size * u) st.zone)
        ≡ false =
      ground arith in
    let inside : leb (base_size * u + 8) st.top ≡ true = ground arith in
    let place : base_size * u + base_size * f - base_size * (f + b) ≡ base_size * (u - b) =
      omega arith in
    let one = push_hint-Pushed st' (f + b) (u - b) (omega arith) (omega arith) all in
    let st'' : Nvm = record st' { lists = one.lists } in
    let first =
      push_hint-same st' (record st' { lists = one.lists }) (base_size * (f + b))
        (base_size * u + base_size * f - base_size * (f + b)) (base_size * (f + b))
        (base_size * (u - b)) refl place one.result in
    elim (Bool-cases (base_size * f == base_size * (f + b))) [
      | inl same ↦ record {
        lists = one.lists;
        result =
            insert_free_location-ok crc st st' st'' (base_size * u) (base_size * f)
              (base_size * (f + b)) (ok st'') apart (rw inside refl) first (rw same refl);
        places = one.places;
      }
      | inr other ↦
          let two = push_hint-Pushed st'' f u pos small one.places in
          record {
            lists = two.lists;
            result =
                insert_free_location-ok crc st st' st'' (base_size * u) (base_size * f)
                  (base_size * (f + b)) (ok (record st' { lists = two.lists })) apart
                  (rw inside refl) first (rw other two.result);
            places = two.places;
          }
    ]
