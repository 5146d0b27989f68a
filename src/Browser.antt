-- ===== src/Browser.antt =====
-- What the client keeps of the page around its components: the theme (web/src/lib/theme.ts), the sheet
-- gestures (lib/sheet.ts), notifications (lib/notify.ts), copies (lib/clipboard.ts and copyPairLink of
-- TerminalApp.tsx), and the way from the address to a view (App.tsx).
pub mod Theme
pub mod Sheet
pub mod Notify
pub mod Clipboard
pub mod Landing
mod Examples
