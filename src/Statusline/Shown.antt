-- ===== src/Statusline/Shown.antt =====
-- Tasks are never shown as nothing.
