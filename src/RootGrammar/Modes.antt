-- ===== src/RootGrammar/Modes.antt =====
-- The start and the stop of the core mode, the Sphinx mode and the echo mode in src/core/CoreMode.cpp,
-- src/sphinx/SphinxMode.cpp and src/core/EchoMode.cpp: their listeners on Buckey, and the root grammar.
-- The grammar that a start reads from its file is given; a handler is a value.
use buckey.Common.{ℕ, Bool, true, false, Option, none, some, List, [], ◌∷◌, String}
use buckey.Events.{EventSource, add_listener, unset_listener}
use buckey.RootGrammar.{Jsgf, Root, add_mode_to_root_grammar, remove_mode_from_root_grammar}

module _ {H D : Type 0} where
  -- Calls of unsetListener in a row.
  unfoldable pub stop_listening : List (String × ℕ) → EventSource H D → EventSource H D
  stop_listening [] b = b
  stop_listening ((event, id) ∷ ids) b = stop_listening ids (unset_listener event id b)

-- What the modes work on: the root grammar, and Buckey as a source of events.
pub record Host (K : Jsgf) (H D : Type 0) : Type 0 where
  pub root : Root K
  pub source : EventSource H D

-- The static ids of the core mode.
pub record CoreHandlers : Type 0 where
  pub finish : ℕ
  pub register : ℕ
  pub disable : ℕ
  pub enable : ℕ
  pub service_enable : ℕ
  pub service_disable : ℕ
  pub service_register : ℕ

pub record SphinxHandlers : Type 0 where
  pub service_enable : ℕ
  pub service_disable : ℕ
  pub service_register : ℕ

-- A mode with its grammar, which is there while it is started, and its state.
pub record Mode (K : Jsgf) (Handlers : Type 0) : Type 0 where
  pub grammar : Option K.Grammar
  pub is_started : Bool
  pub handlers : Handlers

module _ {K : Jsgf} where
  -- The grammar leaves the root grammar before it is deleted.
  abbrev pub out_of_root : String → Option K.Grammar → Root K → Root K
  out_of_root name none root = root
  out_of_root name (some g) root = remove_mode_from_root_grammar name g root

module _ {K : Jsgf} {H D : Type 0} where
  -- The core mode's grammar comes into the root grammar by updateGrammar.
  unfoldable pub start_core :
      (finished updated : H) → K.Grammar → Host K H D → Mode K CoreHandlers × Host K H D
  start_core finished updated read b =
      let (b1, finish) = add_listener "onFinishInitEvent" finished b.source in
      let (b2, register) = add_listener "onModeRegisterEvent" updated b1 in
      let (b3, disable) = add_listener "onModeDisableEvent" updated b2 in
      let (b4, enable) = add_listener "onModeEnableEvent" updated b3 in
      let (b5, service_enable) = add_listener "onServiceEnableEvent" updated b4 in
      let (b6, service_disable) = add_listener "onServiceDisableEvent" updated b5 in
      let (b7, service_register) = add_listener "onServiceRegisterEvent" updated b6 in
      (
        record {
          grammar = some read;
          is_started = true;
          handlers = record {
            finish = finish;
            register = register;
            disable = disable;
            enable = enable;
            service_enable = service_enable;
            service_disable = service_disable;
            service_register = service_register;
          };
        },
        record b { source = b7 },
      )

  unfoldable pub stop_core : Mode K CoreHandlers → Host K H D → Mode K CoreHandlers × Host K H D
  unfolding stop_listening
  stop_core m b = (
    record m { grammar = none; is_started = false },
    record b {
      root = out_of_root "core" m.grammar b.root;
      source =
          stop_listening
            (("onFinishInitEvent", m.handlers.finish)
              ∷ ("onModeEnableEvent", m.handlers.enable)
              ∷ ("onModeDisableEvent", m.handlers.disable)
              ∷ ("onModeRegisterEvent", m.handlers.register)
              ∷ ("onServiceEnableEvent", m.handlers.service_enable)
              ∷ ("onServiceDisableEvent", m.handlers.service_disable)
              ∷ ("onServiceRegisterEvent", m.handlers.service_register)
              ∷ [])
            b.source;
    },
  )

  unfoldable pub start_sphinx :
      (enabled disabled changed : H) → K.Grammar → Host K H D → Mode K SphinxHandlers × Host K H D
  start_sphinx enabled disabled changed read b =
      let (b1, service_enable) = add_listener "onServiceEnableEvent" enabled b.source in
      let (b2, service_disable) = add_listener "onServiceDisableEvent" disabled b1 in
      let (b3, service_register) = add_listener "onServiceRegisterEvent" changed b2 in
      (
        record {
          grammar = some read;
          is_started = true;
          handlers = record {
            service_enable = service_enable;
            service_disable = service_disable;
            service_register = service_register;
          };
        },
        record { root = add_mode_to_root_grammar "pyramid" read b.root; source = b3 },
      )

  unfoldable pub stop_sphinx :
      Mode K SphinxHandlers → Host K H D → Mode K SphinxHandlers × Host K H D
  unfolding stop_listening
  stop_sphinx m b = (
    record m { grammar = none; is_started = false },
    record {
      root = out_of_root "pyramid" m.grammar b.root;
      source =
          stop_listening
            (("onServiceEnableEvent", m.handlers.service_enable)
              ∷ ("onServiceDisableEvent", m.handlers.service_disable)
              ∷ ("onServiceRegisterEvent", m.handlers.service_register)
              ∷ [])
            b.source;
    },
  )

  -- The echo mode keeps its grammar.
  unfoldable pub start_echo : Mode K (Unit {0}) → Host K H D → Mode K (Unit {0}) × Host K H D
  start_echo m b = elim m.grammar [
    | none ↦ (m, b)
    | some g ↦ (
      record m { is_started = true },
      record b { root = add_mode_to_root_grammar "echo" g b.root },
    )
  ]

  unfoldable pub stop_echo : Mode K (Unit {0}) → Host K H D → Mode K (Unit {0}) × Host K H D
  stop_echo m b =
      (record m { is_started = false }, record b { root = out_of_root "echo" m.grammar b.root })
