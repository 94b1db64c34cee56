-- ===== src/Pet.antt =====
-- pet/: the mood that detection results put the mascot in, and its pictures.
pub mod Mood
pub mod Expression
