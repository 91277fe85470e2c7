-- ===== src/Socket/Descriptors.antt =====
-- No descriptor is lost: aesoccreate and aesocaccept.
use evnet.Base.{
  ℕ, ◌≡◌, refl, sym, ap, ◌∙◌, subst, Bool, true, false, Bool-cases, not, Option, none, some, List,
  ◌∷◌, if◌then◌else◌, ◌⊎◌, inl, inr, ℤ, pos, minus_one, is_negative, is_minus_one,
}
use evnet.Socket.{
  Os, invalid_fd, wouldblock, is_would_block, aesocnoblock, reused, prepared, aesoccreate,
  aesocaccept,
}

-- What the system promises of the open descriptors: a call that opens one says so, the calls that set options open
-- and close none, and close closes the newest one, if that is the one it is given.
pub record OsLaws {ℓ} {W : Type ℓ} (os : Os W) (opens : W → List ℤ) : Type ℓ where
  pub socket :
      (family : ℕ) (w : W)
      → (((os.socket family w).0 ≡ minus_one) × (opens (os.socket family w).1 ≡ opens w))
        ⊎ ((n : ℕ) × ((os.socket family w).0 ≡ pos n)
            × (opens (os.socket family w).1 ≡ pos n ∷ opens w))
  pub accept :
      (soc : ℤ) (w : W)
      → (((os.accept soc w).0.0 ≡ minus_one) × (opens (os.accept soc w).1 ≡ opens w))
        ⊎ ((n : ℕ) × ((os.accept soc w).0.0 ≡ pos n)
            × (opens (os.accept soc w).1 ≡ pos n ∷ opens w))
  pub reuse_addr : (soc : ℤ) (w : W) → opens (os.reuse_addr soc w).1 ≡ opens w
  pub get_flags : (soc : ℤ) (w : W) → opens (os.get_flags soc w).1 ≡ opens w
  pub set_nonblock : (soc flags : ℤ) (w : W) → opens (os.set_nonblock soc flags w).1 ≡ opens w
  pub close : (fd : ℤ) (w : W) (fds : List ℤ) → opens w ≡ fd ∷ fds → opens (os.close fd w) ≡ fds

module _ {ℓ} {W : Type ℓ} (os : Os W) (opens : W → List ℤ) (laws : OsLaws os opens) where
  aesocnoblock_opens : (soc : ℤ) (w : W) → opens (aesocnoblock os soc w).1 ≡ opens w
  unfolding aesocnoblock
  aesocnoblock_opens soc w =
      let flags = (os.get_flags soc w).0 in
      let w1 = (os.get_flags soc w).1 in
      let set = os.set_nonblock soc flags w1 in
      let out : Bool → Bool × W =
        λ b. if b then (false, w1) else (not (is_negative set.0), set.1) in
      elim (Bool-cases (is_minus_one flags)) [
        | inl failed ↦ ap (λ b. opens (out b).1) failed ∙ laws.get_flags soc w
        | inr fine ↦
            ap (λ b. opens (out b).1) fine ∙ laws.set_nonblock soc flags w1 ∙ laws.get_flags soc w
      ]

  reused_opens : (acceptor : Bool) (soc : ℤ) (w : W) → opens (reused os acceptor soc w).1 ≡ opens w
  unfolding reused
  reused_opens false soc w = refl
  reused_opens true soc w = laws.reuse_addr soc w

  -- A descriptor is returned and is then the newest one, or none is and all is as before.
  abbrev pub Opened : List ℤ → ℤ × W → Type 0
  Opened fds out =
      ((out.0 ≡ invalid_fd) × (opens out.1 ≡ fds))
      ⊎ ((n : ℕ) × (out.0 ≡ pos n) × (opens out.1 ≡ pos n ∷ fds))

  prepared-Opened :
      (n : ℕ) (acceptor : Bool) (w : W) (fds : List ℤ)
      → opens w ≡ pos n ∷ fds
      → Opened fds (prepared os (pos n) acceptor w)
  unfolding prepared
  prepared-Opened n acceptor w fds e =
      let r = reused os acceptor (pos n) w in
      let b = aesocnoblock os (pos n) r.1 in
      let o1 = reused_opens acceptor (pos n) w ∙ e in
      let o2 = aesocnoblock_opens (pos n) r.1 ∙ o1 in
      let last : ℤ × W = if not b.0 then (invalid_fd, os.close (pos n) b.1) else (pos n, b.1) in
      let all : Bool → ℤ × W = λ x. if not x then (invalid_fd, os.close (pos n) r.1) else last in
      let behind : Bool → ℤ × W =
        λ x. if not x then (invalid_fd, os.close (pos n) b.1) else (pos n, b.1) in
      elim (Bool-cases r.0) [
        | inr failed ↦ inl (
          ap (λ x. (all x).0) failed,
          ap (λ x. opens (all x).1) failed ∙ laws.close (pos n) r.1 fds o1,
        )
        | inl fine ↦ elim (Bool-cases b.0) [
          | inr blocks ↦ inl (
            ap (λ x. (all x).0) fine ∙ ap (λ x. (behind x).0) blocks,
            ap (λ x. opens (all x).1) fine
                ∙ ap (λ x. opens (behind x).1) blocks
                ∙ laws.close (pos n) b.1 fds o2,
          )
          | inl free ↦ inr (
            n,
            ap (λ x. (all x).0) fine ∙ ap (λ x. (behind x).0) free,
            ap (λ x. opens (all x).1) fine ∙ ap (λ x. opens (behind x).1) free ∙ o2,
          )
        ]
      ]

  -- aesoccreate returns a new descriptor, which is the only one that is opened; or it returns _INVALIDFD, and
  -- whatever it had opened is closed, also where an option could not be set.
  pub aesoccreate-Opened :
      (family : ℕ) (acceptor : Bool) (w : W) → Opened (opens w) (aesoccreate os family acceptor w)
  unfolding aesoccreate
  aesoccreate-Opened family acceptor w =
      let w1 = (os.socket family w).1 in
      let out : ℤ → ℤ × W =
        λ soc. if is_minus_one soc then (invalid_fd, w1) else prepared os soc acceptor w1 in
      elim (laws.socket family w) [
        | inl (failed, same) ↦
            inl (ap (λ soc. (out soc).0) failed, ap (λ soc. opens (out soc).1) failed ∙ same)
        | inr (n, made, more) ↦
            subst (λ soc. Opened (opens w) (out soc)) (sym made)
              (prepared-Opened n acceptor w1 (opens w) more)
      ]

  -- aesocaccept returns 0 and writes a new descriptor, which is the only one that is opened; or
  -- it returns _wouldblock or -1, writes none, and leaves none open.
  pub aesocaccept_opens :
      (soc : ℤ) (w : W)
      → (((aesocaccept os soc w).0.0 ≡ pos 0)
          × (n : ℕ) × (ip_str : List ℕ) × (port : ℕ) × ((aesocaccept os soc w).0.1
              ≡ some (pos n, ip_str, port))
          × (opens (aesocaccept os soc w).1 ≡ pos n ∷ opens w))
        ⊎ ((((aesocaccept os soc w).0.0 ≡ wouldblock) ⊎ ((aesocaccept os soc w).0.0 ≡ minus_one))
            × ((aesocaccept os soc w).0.1 ≡ none)
            × (opens (aesocaccept os soc w).1 ≡ opens w))
  unfolding aesocaccept
  aesocaccept_opens soc w =
      let w1 = (os.accept soc w).1 in
      let ip_str = (os.accept soc w).0.1.0 in
      let port = (os.accept soc w).0.1.1 in
      let last : ℤ → Bool → (ℤ × Option (ℤ × List ℕ × ℕ)) × W = λ conn b.
        if b
        then ((pos 0, some (conn, ip_str, port)), (aesocnoblock os conn w1).1)
        else ((minus_one, none), os.close conn (aesocnoblock os conn w1).1) in
      let out : ℤ → (ℤ × Option (ℤ × List ℕ × ℕ)) × W = λ conn.
        if is_minus_one conn
        then ((wouldblock, none), w1)
        else if is_negative conn
        then (((if is_would_block (os.errno w1) then wouldblock else minus_one), none), w1)
        else last conn (aesocnoblock os conn w1).0 in
      elim (laws.accept soc w) [
        | inl (failed, same) ↦ inr (
          inl (ap (λ c. (out c).0.0) failed),
          ap (λ c. (out c).0.1) failed,
          ap (λ c. opens (out c).1) failed ∙ same,
        )
        | inr (n, made, more) ↦
            let o = aesocnoblock_opens (pos n) w1 ∙ more in
            elim (Bool-cases (aesocnoblock os (pos n) w1).0) [
              | inl free ↦ inl (
                ap (λ c. (out c).0.0) made ∙ ap (λ b. (last (pos n) b).0.0) free,
                n,
                ip_str,
                port,
                ap (λ c. (out c).0.1) made ∙ ap (λ b. (last (pos n) b).0.1) free,
                ap (λ c. opens (out c).1) made ∙ ap (λ b. opens (last (pos n) b).1) free ∙ o,
              )
              | inr blocks ↦ inr (
                inr (ap (λ c. (out c).0.0) made ∙ ap (λ b. (last (pos n) b).0.0) blocks),
                ap (λ c. (out c).0.1) made ∙ ap (λ b. (last (pos n) b).0.1) blocks,
                ap (λ c. opens (out c).1) made
                    ∙ ap (λ b. opens (last (pos n) b).1) blocks
                    ∙ laws.close (pos n) (aesocnoblock os (pos n) w1).1 (opens w) o,
              )
            ]
      ]
