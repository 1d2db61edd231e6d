-- ===== src/Commands/Registry.antt =====
-- core/src/commands/command-registry.ts and the dispatch of core/src/commands/command-dispatcher.ts.
-- `lower` is `toLowerCase` on any text.
use icos_v.Base.{
  String, true, Option, none, some, List, [], ◌∷◌, ◌++◌, ◌≡◌, refl, ◌∙◌, sym, ap, subst, eq_refl,
  All,
}
use icos_v.Base.Exec.{Result, ok, err}
use icos_v.Base.Table.{find, find-append}
use icos_v.Commands.{
  ParsedSlashCommand, SlashCommandError, malformed, parse_slash_command, is_command_name,
}
use icos_v.Commands.Parse.{print_command, parse_slash_command-print_command}

pub record CommandContext : Type 0 where
  pub session_id : Option String
  pub raw : String

pub record SlashCommandHandler (R : Type 0) : Type 0 where
  pub name : String
  pub aliases : List String
  pub execute : CommandContext → List String → R

-- An entry of the map from names to handlers.
pub record Entry (R : Type 0) : Type 0 where
  pub key : String
  pub handler : SlashCommandHandler R

pub data RegistryError : Type 0 where
  duplicate_command duplicate_alias : String → RegistryError

pub data DispatchError : Type 0 where
  bad_request : (raw : String) → DispatchError
  not_found : (name : String) → DispatchError

-- `handlers`
abbrev pub Handlers : Type 0 → Type 0
Handlers R = List (Entry R)

refused_or_not : (e : RegistryError) → ¬ (Path (Result RegistryError (Unit {0})) (err e) (ok tt))
refused_or_not e p = cc

module _ {R : Type 0} where
  abbrev pub key_of : Entry R → String
  key_of e = e.key

  -- `handlers.get`
  abbrev pub lookup : String → Handlers R → Option (Entry R)
  lookup key handlers = find key_of key handlers

  abbrev insert_unless :
      Option (Entry R)
      → RegistryError
      → Entry R
      → Handlers R
      → Result RegistryError (Unit {0}) × Handlers R
  insert_unless none error entry handlers = (ok tt, handlers ++ entry ∷ [])
  insert_unless (some _) error entry handlers = (err error, handlers)

  -- The check of a key, and `handlers.set`.
  abbrev pub insert_key :
      RegistryError → Entry R → Handlers R → Result RegistryError (Unit {0}) × Handlers R
  insert_key error entry handlers = insert_unless (lookup entry.key handlers) error entry handlers

  module _ (lower : String → String) where
    abbrev pub and_then :
        Result RegistryError (Unit {0}) × Handlers R
        → (Handlers R → Result RegistryError (Unit {0}) × Handlers R)
        → Result RegistryError (Unit {0}) × Handlers R
    and_then (ok a, handlers) k = k handlers
    and_then (err e, handlers) k = (err e, handlers)

    unfoldable pub insert_aliases :
        List String
        → SlashCommandHandler R
        → Handlers R
        → Result RegistryError (Unit {0}) × Handlers R
    insert_aliases [] handler handlers = (ok tt, handlers)
    insert_aliases (alias ∷ rest) handler handlers =
        and_then
          (insert_key (duplicate_alias alias) (record { key = lower alias; handler = handler })
            handlers)
          (insert_aliases rest handler)

    unfoldable pub register :
        SlashCommandHandler R → Handlers R → Result RegistryError (Unit {0}) × Handlers R
    register handler handlers =
        and_then
          (insert_key (duplicate_command handler.name)
            (record { key = handler.name; handler = handler }) handlers)
          (insert_aliases handler.aliases handler)

    unfoldable pub resolve : String → Handlers R → Option (Entry R)
    resolve name handlers = lookup (lower name) handlers

    abbrev pub run_handler :
        String → Option String → ParsedSlashCommand → Option (Entry R) → Result DispatchError R
    run_handler raw session_id parsed none = err (not_found parsed.name)
    run_handler raw session_id parsed (some entry) =
        ok (entry.handler.execute (record { session_id = session_id; raw = raw }) parsed.args)

    abbrev pub dispatch_parsed :
        String
        → Option String
        → Handlers R
        → Result SlashCommandError ParsedSlashCommand
        → Result DispatchError R
    dispatch_parsed raw session_id handlers (err (malformed text)) = err (bad_request text)
    dispatch_parsed raw session_id handlers (ok parsed) =
        run_handler raw session_id parsed (resolve parsed.name handlers)

    unfoldable pub dispatch : String → Option String → Handlers R → Result DispatchError R
    dispatch raw session_id handlers =
        dispatch_parsed raw session_id handlers (parse_slash_command raw)

    -- Every key that leads to a handler still leads to it.
    abbrev Extends : Handlers R → Handlers R → Type 0
    Extends before after =
        (key : String) (e : Entry R) → lookup key before ≡ some e → lookup key after ≡ some e

    insert_key-Extends :
        (error : RegistryError) (entry : Entry R) (handlers : Handlers R)
        → Extends handlers (insert_key error entry handlers).1
    insert_key-Extends error entry handlers k e h = go (lookup entry.key handlers)
      where
        go : (o : Option (Entry R)) → lookup k (insert_unless o error entry handlers).1 ≡ some e
        go none = rw (find-append, h) refl
        go (some _) = h

    and_then-Extends :
        (r : Result RegistryError (Unit {0}) × Handlers R)
        (k : Handlers R → Result RegistryError (Unit {0}) × Handlers R) (handlers : Handlers R)
        → Extends handlers r.1
        → ((after : Handlers R) → Extends after (k after).1)
        → Extends handlers (and_then r k).1
    and_then-Extends (ok a, after) k handlers h more key e there = more after key e (h key e there)
    and_then-Extends (err x, after) k handlers h more key e there = h key e there

    insert_aliases-Extends :
        (aliases : List String) (handler : SlashCommandHandler R) (handlers : Handlers R)
        → Extends handlers (insert_aliases aliases handler handlers).1
    unfolding insert_aliases
    insert_aliases-Extends [] handler handlers = λ k e h. h
    insert_aliases-Extends (alias ∷ rest) handler handlers =
        and_then-Extends _ (insert_aliases rest handler) handlers (insert_key-Extends _ _ handlers)
          (insert_aliases-Extends rest handler)

    -- A name or an alias that leads to a handler leads to it after any registration, also one that is
    -- refused halfway.
    pub register-keeps :
        (handler : SlashCommandHandler R) (handlers : Handlers R) (name : String) (e : Entry R)
        → resolve name handlers ≡ some e
        → resolve name (register handler handlers).1 ≡ some e
    unfolding register resolve
    register-keeps handler handlers name e h =
        and_then-Extends _ (insert_aliases handler.aliases handler) handlers
          (insert_key-Extends _ _ handlers) (insert_aliases-Extends handler.aliases handler)
          (lower name) e h

    -- The entry of a key that has just been set.
    insert_key-lookup :
        (error : RegistryError) (entry : Entry R) (handlers : Handlers R)
        → (insert_key error entry handlers).0 ≡ ok tt
        → lookup entry.key (insert_key error entry handlers).1 ≡ some entry
    insert_key-lookup error entry handlers h = go (lookup entry.key handlers) refl h
      where
        go :
            (o : Option (Entry R))
            → lookup entry.key handlers ≡ o
            → (insert_unless o error entry handlers).0 ≡ ok tt
            → lookup entry.key (insert_unless o error entry handlers).1 ≡ some entry
        go none missing h = rw (find-append, missing, eq_refl entry.key) refl
        go (some _) found h = absurd (refused_or_not error h)

    and_then-ok :
        (r : Result RegistryError (Unit {0}) × Handlers R)
        (k : Handlers R → Result RegistryError (Unit {0}) × Handlers R)
        → (and_then r k).0 ≡ ok tt
        → (r.0 ≡ ok tt) × (and_then r k ≡ k r.1)
    and_then-ok (ok tt, after) k h = (refl, refl)
    and_then-ok (err e, after) k h = absurd (refused_or_not e h)

    insert_aliases-lookup :
        (aliases : List String) (handler : SlashCommandHandler R) (handlers : Handlers R)
        → (insert_aliases aliases handler handlers).0 ≡ ok tt
        → All
            (λ alias.
              lookup (lower alias) (insert_aliases aliases handler handlers).1
              ≡ some (record { key = lower alias; handler = handler }))
            aliases
    unfolding insert_aliases
    insert_aliases-lookup [] handler handlers h = tt
    insert_aliases-lookup (alias ∷ rest) handler handlers h =
        let entry : Entry R = record { key = lower alias; handler = handler } in
        let (set, same) =
          and_then-ok (insert_key (duplicate_alias alias) entry handlers)
            (insert_aliases rest handler) h in
        let after = (insert_key (duplicate_alias alias) entry handlers).1 in
        subst
          (λ r.
            (lookup (lower alias) r.1 ≡ some entry)
            × All (λ a. lookup (lower a) r.1 ≡ some (record { key = lower a; handler = handler }))
                rest)
          (sym same)
          (
            insert_aliases-Extends rest handler after (lower alias) entry
                (insert_key-lookup (duplicate_alias alias) entry handlers set),
            insert_aliases-lookup rest handler after (sym (ap (λ r. r.0) same) ∙ h),
          )

    -- A registration that is not refused: the name, where it is in lower case, and every alias in any case
    -- lead to the handler.
    pub register-resolves :
        (handler : SlashCommandHandler R) (handlers : Handlers R)
        → lower handler.name ≡ handler.name
        → (register handler handlers).0 ≡ ok tt
        → (resolve handler.name (register handler handlers).1
            ≡ some (record { key = handler.name; handler = handler }))
          × All
              (λ alias.
                resolve alias (register handler handlers).1
                ≡ some (record { key = lower alias; handler = handler }))
              handler.aliases
    unfolding register resolve
    register-resolves handler handlers small h =
        let entry : Entry R = record { key = handler.name; handler = handler } in
        let (set, same) =
          and_then-ok (insert_key (duplicate_command handler.name) entry handlers)
            (insert_aliases handler.aliases handler) h in
        let after = (insert_key (duplicate_command handler.name) entry handlers).1 in
        subst
          (λ r.
            (lookup (lower handler.name) r.1 ≡ some entry)
            × All (λ a. lookup (lower a) r.1 ≡ some (record { key = lower a; handler = handler }))
                handler.aliases)
          (sym same)
          (
            rw small (
                insert_aliases-Extends handler.aliases handler after handler.name entry
                  (insert_key-lookup (duplicate_command handler.name) entry handlers set)),
            insert_aliases-lookup handler.aliases handler after (sym (ap (λ r. r.0) same) ∙ h),
          )

    -- The command line of a registered command and of any arguments runs its handler on those arguments.
    pub dispatch-print_command :
        (name : String) (args : List String) (session_id : Option String) (handlers : Handlers R)
        (entry : Entry R)
        → is_command_name name ≡ true
        → resolve name handlers ≡ some entry
        → dispatch (print_command name args) session_id handlers
          ≡ ok (
              entry.handler.execute
                (record { session_id = session_id; raw = print_command name args })
                args)
    unfolding dispatch
    dispatch-print_command name args session_id handlers entry valid found =
        rw (parse_slash_command-print_command name args valid, found) refl
